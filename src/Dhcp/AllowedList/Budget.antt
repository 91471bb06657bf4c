-- ===== src/Dhcp/AllowedList/Budget.antt =====
-- The size of the allowed list's text.
use dhcpserver.Base.{
  ℕ, zero, suc, ◌+◌, ◌-◌, ◌*◌, ◌≤◌, ◌≡◌, ◌⊎◌, inl, inr, refl, sym, ap, ◌∙◌, Bool, true, false, List,
  [], ◌∷◌, ◌++◌, some, leb, length, length-append, length-take-le, arith, Bool-cases, Option-cases,
}
use dhcpserver.Dhcp.Mac.{hex_digits, pair_digits, parse_mac, format_mac}
use dhcpserver.Dhcp.AllowedList.{AllowedComputer, max_entries}
use dhcpserver.Dhcp.AllowedList.Codec.{
  max_name_len, sanitize_name, storage_field_text, flag, line_of, end_line, serialize_from,
  serialize, serialized_bytes,
}

-- A parsed address has six bytes.
length-pair_digits : (n : ℕ) (ds bs : List ℕ) → pair_digits n ds ≡ some bs → length bs ≡ n
unfolding pair_digits
length-pair_digits zero [] bs e = let same : [] ≡ bs = cc e in ap length (sym same)
length-pair_digits zero (d ∷ ds) bs e = absurd (cc e)
length-pair_digits (suc n) [] bs e = absurd (cc e)
length-pair_digits (suc n) (d ∷ []) bs e = absurd (cc e)
length-pair_digits (suc n) (d ∷ c ∷ ds) bs e = elim (Option-cases (pair_digits n ds)) [
  | inl gone ↦ absurd (ground (arith, gone, e))
  | inr (rest, found) ↦
      let same : (d * 16 + c) ∷ rest ≡ bs = ground (arith, found, e) in
      ap length (sym same) ∙ ap suc (length-pair_digits n ds rest found)
]

length-parse_mac : (text bs : List ℕ) → parse_mac text ≡ some bs → length bs ≡ 6
unfolding parse_mac
length-parse_mac text bs e = elim (Option-cases (hex_digits text 0)) [
  | inl gone ↦ absurd (ground (arith, gone, e))
  | inr (ds, found) ↦ length-pair_digits 6 ds bs (rw (found, parse_mac) at e)
]

length-format_mac : (bs : List ℕ) → length (format_mac bs) ≤ 3 * length bs - 1
unfolding format_mac
length-format_mac [] = omega arith
length-format_mac (b ∷ []) = omega arith
length-format_mac (b ∷ c ∷ bs) = omega (arith, length-format_mac (c ∷ bs))

length-flag : (b : Bool) → length (flag b) ≡ 1
length-flag true = refl
length-flag false = refl

length-line_of :
    (bytes : List ℕ) (e : AllowedComputer) → length bytes ≡ 6 → length (line_of bytes e) ≤ 40
length-line_of bytes e six =
    let name : length (sanitize_name e.name) ≤ max_name_len =
      unfold sanitize_name in length-take-le max_name_len (storage_field_text e.name) in
    let address = length-format_mac bytes in
    omega (
      arith,
      six,
      name,
      address,
      length-flag e.enabled,
      length-append (format_mac bytes) (b'|' ∷ (sanitize_name e.name ++ (b'|' ∷ flag e.enabled))),
      length-append (sanitize_name e.name) (b'|' ∷ flag e.enabled),
    )

length-end_line : (xs : List ℕ) → (length xs ≡ 0) ⊎ (length (end_line xs) ≡ length xs + 1)
length-end_line [] = inl refl
length-end_line (x ∷ xs) = inr (length-append (x ∷ xs) (10 ∷ []))

-- kMaxBytes
abbrev pub max_bytes : ℕ
max_bytes = 1024

end_line-empty : (xs : List ℕ) → length (end_line xs) ≤ length xs + 1
end_line-empty [] = omega arith
end_line-empty (x ∷ xs) = omega (arith, length-append (x ∷ xs) (10 ∷ []))

length-serialize_from :
    (list : List AllowedComputer) (out : List ℕ) (written : ℕ)
    → length (end_line out) ≤ 41 * written
    → written ≤ max_entries
    → length (serialize_from list out written) ≤ max_bytes
unfolding serialize_from
length-serialize_from [] out written h fits = omega (arith, h, fits, length-end_line out)
length-serialize_from (e ∷ es) out written h fits = elim (Bool-cases (leb max_entries written)) [
  | inl full ↦ rw full (omega (arith, h, fits, length-end_line out))
  | inr room ↦ elim (Option-cases (parse_mac e.mac)) [
    | inl gone ↦ rw (room, gone) (length-serialize_from es out written h fits)
    | inr (bytes, read) ↦
        let grown = end_line out ++ line_of bytes e in
        let size = length-append (end_line out) (line_of bytes e) in
        let entry = length-line_of bytes e (length-parse_mac e.mac bytes read) in
        let more : written + 1 ≤ max_entries = ground (arith, room) in
        rw (room, read)
          (length-serialize_from es grown (written + 1)
            (omega (arith, h, size, entry, length-end_line grown, end_line-empty grown)) more)
  ]
]

-- The text of any list fits the 1024 bytes that the settings keep for it.
pub serialized_bytes_bound : (list : List AllowedComputer) → serialized_bytes list ≤ max_bytes
unfolding serialized_bytes serialize
serialized_bytes_bound list = length-serialize_from list [] 0 (omega arith) (omega arith)
