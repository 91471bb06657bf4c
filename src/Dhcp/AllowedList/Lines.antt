-- ===== src/Dhcp/AllowedList/Lines.antt =====
-- The text of the allowed list is read back as the list that it was made from.
use dhcpserver.Base.{
  is_empty, ℕ, ◌+◌, ◌≤◌, ◌≡◌, inl, inr, refl, sym, ap, ap₂, ◌∙◌, Bool, true, false, not, List, [],
  ◌∷◌, ◌++◌, some, leb, ◌==◌, length, length-append, append_assoc, append-nil, map, bytes_eq, arith,
  pieces, is_free, pieces-append_sep, pieces-free,
}
use dhcpserver.Dhcp.Mac.{parse_mac, normalize_mac, parse_mac-format_mac}
use dhcpserver.Dhcp.AllowedList.{AllowedComputer, max_entries}
use dhcpserver.Dhcp.AllowedList.Codec.{
  trim_begin, trim_end, trim, flag, line_of, end_line, serialize_from, serialize, cut, entry_of,
  parse_lines, parse,
}
use dhcpserver.Dhcp.AllowedList.Stored.{
  IsStored, AllStored, is_free-append, is_free-format_mac, trim_begin-format_mac,
  is_empty-format_mac, normalize_mac-format_mac, is_free-name,
}

-- The line of an entry.
abbrev line : AllowedComputer → List ℕ
line e = e.mac ++ (b'|' ∷ (e.name ++ (b'|' ∷ flag e.enabled)))

is_free-line : (e : AllowedComputer) → IsStored e → is_free 10 (line e) ≡ true
is_free-line e s =
    is_free-append 10 e.mac _
      (ap (is_free 10) s.printed
        ∙ is_free-format_mac 10 s.bytes (inl (omega arith)) s.address.bytes)
      (is_free-append 10 e.name _ (is_free-name 10 e.name (inl refl) s.clean) (flags e.enabled))
  where
    flags : (b : Bool) → is_free 10 (b'|' ∷ flag b) ≡ true
    flags true = refl
    flags false = refl

line_of-line : (e : AllowedComputer) (s : IsStored e) → line_of s.bytes e ≡ line e
line_of-line e s = rw (sym s.printed, s.clean) refl

-- The text behind the first line.
tail_lines : List AllowedComputer → List ℕ
tail_lines [] = []
tail_lines (e ∷ es) = 10 ∷ (line e ++ tail_lines es)

end_line-full : (xs : List ℕ) → is_empty xs ≡ false → end_line xs ≡ xs ++ (10 ∷ [])
end_line-full [] h = absurd (cc h)
end_line-full (x ∷ xs) h = refl

is_empty-append : (xs ys : List ℕ) → is_empty ys ≡ false → is_empty (xs ++ ys) ≡ false
is_empty-append [] ys h = h
is_empty-append (x ∷ xs) ys h = refl

serialize_from-stored :
    (list : List AllowedComputer) (out : List ℕ) (written : ℕ)
    → AllStored list
    → is_empty out ≡ false
    → written + length list ≤ max_entries
    → serialize_from list out written ≡ out ++ tail_lines list
unfolding serialize_from tail_lines AllStored
serialize_from-stored [] out written h full fits = sym (append-nil out)
serialize_from-stored (e ∷ es) out written (s, h) full fits =
    let room : leb max_entries written ≡ false = ground (arith, fits) in
    let read : parse_mac e.mac ≡ some s.bytes =
      ap parse_mac s.printed ∙ parse_mac-format_mac s.bytes s.address in
    let grown = (out ++ (10 ∷ [])) ++ line e in
    let next : end_line out ++ line_of s.bytes e ≡ grown =
      ap₂ (λ a b. a ++ b) (end_line-full out full) (line_of-line e s) in
    let goes_on : is_empty grown ≡ false =
      is_empty-append (out ++ (10 ∷ [])) (line e) (is_empty-append e.mac _ refl) in
    rw (room, read, next)
      (serialize_from-stored es grown (written + 1) h goes_on (omega (arith, fits))
        ∙ append_assoc (out ++ (10 ∷ [])) (line e) (tail_lines es)
        ∙ append_assoc out (10 ∷ []) (line e ++ tail_lines es))

pieces-lines :
    (e : AllowedComputer) (es : List AllowedComputer)
    → IsStored e
    → AllStored es
    → pieces 10 (line e ++ tail_lines es) ≡ map line (e ∷ es)
unfolding tail_lines AllStored
pieces-lines e [] s h =
    ap (pieces 10) (append-nil (line e)) ∙ pieces-free 10 (line e) (is_free-line e s)
pieces-lines e (f ∷ fs) s (t, h) =
    pieces-append_sep 10 (line e) (line f ++ tail_lines fs) (is_free-line e s)
    ∙ ap (λ l. line e ∷ l) (pieces-lines f fs t h)

-- A line is read back as its entry.
trim_end-append :
    (xs ys : List ℕ) → is_empty ys ≡ false → trim_end ys ≡ ys → trim_end (xs ++ ys) ≡ xs ++ ys
unfolding trim_end
trim_end-append [] ys full h = h
trim_end-append (x ∷ xs) ys full h =
    rw (trim_end-append xs ys full h, is_empty-append xs ys full) refl

trim_end-flag : (b : Bool) → trim_end (b'|' ∷ flag b) ≡ b'|' ∷ flag b
unfolding trim_end
trim_end-flag true = refl
trim_end-flag false = refl

trim-line : (e : AllowedComputer) → IsStored e → trim (line e) ≡ line e
unfolding trim
trim-line e s =
    ap trim_end (
      ap (λ m. trim_begin (m ++ (b'|' ∷ (e.name ++ (b'|' ∷ flag e.enabled))))) s.printed
      ∙ trim_begin-format_mac s.bytes _ s.address
      ∙ ap (λ m. m ++ (b'|' ∷ (e.name ++ (b'|' ∷ flag e.enabled)))) (sym s.printed))
    ∙ trim_end-append e.mac _ refl
        (trim_end-append (b'|' ∷ e.name) (b'|' ∷ flag e.enabled) refl (trim_end-flag e.enabled))

cut-append :
    (sep : ℕ) (xs ys : List ℕ) → is_free sep xs ≡ true → cut sep (xs ++ (sep ∷ ys)) ≡ some (xs, ys)
unfolding cut
cut-append sep [] ys h = let here : (sep == sep) ≡ true = ground arith in rw here refl
cut-append sep (x ∷ xs) ys h =
    let other : (x == sep) ≡ false = ground (arith, h) in
    let others : is_free sep xs ≡ true = ground (arith, h) in
    rw (other, cut-append sep xs ys others) refl

read_flag : (b : Bool) → not (bytes_eq (trim (flag b)) (b'0' ∷ [])) ≡ b
unfolding trim trim_begin trim_end bytes_eq
read_flag true = refl
read_flag false = refl

entry_of-line : (e : AllowedComputer) → IsStored e → entry_of (line e) ≡ e
unfolding entry_of
entry_of-line e s =
    let mac_free =
      ap (is_free b'|') s.printed
      ∙ is_free-format_mac b'|' s.bytes (inr (omega arith)) s.address.bytes in
    let fields = cut-append b'|' e.mac (e.name ++ (b'|' ∷ flag e.enabled)) mac_free in
    let name =
      cut-append b'|' e.name (flag e.enabled) (is_free-name b'|' e.name (inr refl) s.clean) in
    let mac : normalize_mac e.mac ≡ e.mac =
      ap normalize_mac s.printed ∙ normalize_mac-format_mac s.bytes s.address ∙ sym s.printed in
    rw (fields, name, entry_of) (rw (mac, s.clean, read_flag e.enabled) refl)

parse_lines-stored :
    (list out : List AllowedComputer)
    → AllStored list
    → length out + length list ≤ max_entries
    → parse_lines (map line list) out ≡ out ++ list
unfolding parse_lines AllStored
parse_lines-stored [] out h fits = sym (append-nil out)
parse_lines-stored (e ∷ es) out (s, h) fits =
    let room : leb max_entries (length out) ≡ false = ground (arith, fits) in
    let text : is_empty (line e) ≡ false = is_empty-append e.mac _ refl in
    let known : is_empty e.mac ≡ false =
      ap is_empty s.printed ∙ is_empty-format_mac s.bytes s.address in
    let longer = length-append out (e ∷ []) in
    rw (room, trim-line e s, text, entry_of-line e s, known)
      (parse_lines-stored es (out ++ (e ∷ [])) h (omega (arith, fits, longer))
        ∙ append_assoc out (e ∷ []) es)

-- A list of stored entries, not more than the settings keep, is read back from its text as itself.
pub parse-serialize :
    (list : List AllowedComputer)
    → AllStored list
    → length list ≤ max_entries
    → parse (serialize list) ≡ list
unfolding parse serialize AllStored
parse-serialize [] h fits =
    unfold serialize_from pieces parse_lines trim trim_begin trim_end in refl
parse-serialize (e ∷ es) (s, h) fits =
    let read : parse_mac e.mac ≡ some s.bytes =
      ap parse_mac s.printed ∙ parse_mac-format_mac s.bytes s.address in
    let full : is_empty (line e) ≡ false = is_empty-append e.mac _ refl in
    let text : serialize_from (e ∷ es) [] 0 ≡ line e ++ tail_lines es =
      unfold serialize_from in
      rw (read, line_of-line e s)
        (serialize_from-stored es (line e) 1 h full (omega (arith, fits))) in
    ap (λ t. parse_lines (pieces 10 t) []) text
    ∙ ap (λ ls. parse_lines ls []) (pieces-lines e es s h)
    ∙ parse_lines-stored (e ∷ es) [] (s, h) (omega (arith, fits))
