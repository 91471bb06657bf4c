-- ===== src/Dhcp/ClientName/Clean.antt =====
-- What DhcpClientName guarantees of every name that it returns: its length, no ASCII control bytes
-- and no separator, and whole sequences of lead and continuation bytes.
use mathlib.Core.List.{reverse, reverse-cons, reverse-reverse}
use dhcpserver.Base.{
  ℕ, zero, suc, ◌+◌, ◌-◌, ◌/◌, ◌%◌, ◌≤◌, ◌<◌, ◌≡◌, inl, inr, refl, subst, false, List, [], ◌∷◌,
  ◌++◌, ltb, ◌==◌, if◌then◌else◌, length, take, drop, arith, Bool-cases, Option-cases,
  length-append, length-take-le,
}
use dhcpserver.Dhcp.ClientName.{
  max_len, char_len, keeps, clean, trim_left, sanitize, until_nul, find_option, decode_dns_name,
  host_name_option, drop_dots, fqdn_value, fqdn_option, short_label, from_options,
}
use dhcpserver.Dhcp.ClientName.Text.{
  IsText, ended, ascii, two, three, four, Lead-keeps, join_char, IsText-init,
}

-- A name: a text of at most max_len bytes.
pub record IsName (name : List ℕ) : Type 0 where
  pub text : IsText name
  pub short : length name ≤ max_len

clean-IsName :
    (fuel kept : ℕ) (name : List ℕ)
    → kept ≤ max_len
    → IsText (clean fuel kept name) × (kept + length (clean fuel kept name) ≤ max_len)
unfolding clean
clean-IsName zero kept name h = (ended, omega arith)
clean-IsName (suc fuel) kept [] h = (ended, omega arith)
clean-IsName (suc fuel) kept (c ∷ rest) h = elim (Bool-cases (keeps c rest)) [
  | inr n ↦ let later = clean-IsName fuel kept rest h in rw n later
  | inl k ↦ elim (Bool-cases (ltb max_len (kept + char_len c))) [
    | inl full ↦ rw (k, full) (ended, omega arith)
    | inr room ↦
        let later =
          clean-IsName fuel (kept + char_len c) (drop (char_len c - 1) rest) (ground arith) in
        rw (k, room)
          (
            join_char c rest _ (Lead-keeps c rest k) later.0,
            omega (
              arith,
              length-append (take (char_len c) (c ∷ rest))
                  (clean fuel (kept + char_len c) (drop (char_len c - 1) rest)),
              length-take-le (char_len c) (c ∷ rest),
              later.1,
            ),
          )
  ]
]

IsText-trim_left : (cs : List ℕ) → IsText cs → IsText (trim_left cs)
unfolding trim_left
IsText-trim_left [] t = t
IsText-trim_left (c ∷ cs) (ascii l u n t) = elim (Bool-cases (c == 32)) [
  | inl s ↦ rw s (IsText-trim_left cs t)
  | inr o ↦ rw o (ascii l u n t)
]
IsText-trim_left (c ∷ _) (two l u p t) =
    let other : (c == 32) ≡ false = ground arith in rw other (two l u p t)
IsText-trim_left (c ∷ _) (three l u p q t) =
    let other : (c == 32) ≡ false = ground arith in rw other (three l u p q t)
IsText-trim_left (c ∷ _) (four l u p q r t) =
    let other : (c == 32) ≡ false = ground arith in rw other (four l u p q r t)

length-trim_left-le : (cs : List ℕ) → length (trim_left cs) ≤ length cs
unfolding trim_left
length-trim_left-le [] = omega arith
length-trim_left-le (c ∷ cs) = ground (arith, length-trim_left-le cs)

-- Cutting ASCII bytes off the end keeps a name, whichever the loop over the reversed text cuts.
IsName-init : (c : ℕ) (xs : List ℕ) → c < 128 → IsName (xs ++ (c ∷ [])) → IsName xs
IsName-init c xs h n = record {
  text = IsText-init c xs _ h n.text refl;
  short = omega (arith, length-append xs (c ∷ []), n.short);
}

trim_right-IsName : (ys : List ℕ) → IsName (reverse ys) → IsName (reverse (trim_left ys))
unfolding trim_left
trim_right-IsName [] n = n
trim_right-IsName (c ∷ cs) n = elim (Bool-cases (c == 32)) [
  | inr o ↦ rw o n
  | inl s ↦ rw s (
      trim_right-IsName cs
        (IsName-init c (reverse cs) (ground arith) (subst IsName (reverse-cons c cs) n)))
]

drop_dots-IsName : (ys : List ℕ) → IsName (reverse ys) → IsName (reverse (drop_dots ys))
unfolding drop_dots
drop_dots-IsName [] n = n
drop_dots-IsName (c ∷ cs) n = elim (Bool-cases (c == b'.')) [
  | inr o ↦ rw o n
  | inl s ↦ rw s (
      drop_dots-IsName cs
        (IsName-init c (reverse cs) (ground arith) (subst IsName (reverse-cons c cs) n)))
]

-- The byte before the first dot ends no character but an ASCII one.
short_label-IsText : (cs : List ℕ) → IsText cs → IsText (short_label cs)
unfolding short_label
short_label-IsText [] t = t
short_label-IsText (c ∷ cs) (ascii l u n t) = elim (Bool-cases (c == b'.')) [
  | inl s ↦ rw s ended
  | inr o ↦ rw o (ascii l u n (short_label-IsText cs t))
]
short_label-IsText (c ∷ d ∷ cs) (two l u p t) =
    let at_c : (c == b'.') ≡ false = ground arith in
    let at_d : (d == b'.') ≡ false = ground arith in
    rw (at_c, at_d) (two l u p (short_label-IsText cs t))
short_label-IsText (c ∷ d ∷ e ∷ cs) (three l u p q t) =
    let at_c : (c == b'.') ≡ false = ground arith in
    let at_d : (d == b'.') ≡ false = ground arith in
    let at_e : (e == b'.') ≡ false = ground arith in
    rw (at_c, at_d, at_e) (three l u p q (short_label-IsText cs t))
short_label-IsText (c ∷ d ∷ e ∷ f ∷ cs) (four l u p q r t) =
    let at_c : (c == b'.') ≡ false = ground arith in
    let at_d : (d == b'.') ≡ false = ground arith in
    let at_e : (e == b'.') ≡ false = ground arith in
    let at_f : (f == b'.') ≡ false = ground arith in
    rw (at_c, at_d, at_e, at_f) (four l u p q r (short_label-IsText cs t))

length-short_label-le : (cs : List ℕ) → length (short_label cs) ≤ length cs
unfolding short_label
length-short_label-le [] = omega arith
length-short_label-le (c ∷ cs) = ground (arith, length-short_label-le cs)

blank-IsName : IsName []
blank-IsName = record { text = ended; short = omega arith }

sanitize-IsName : (name : List ℕ) → IsName (sanitize name)
unfolding sanitize
sanitize-IsName name =
    let cleaned = clean-IsName (length name) 0 name (omega arith) in
    let kept = clean (length name) 0 name in
    trim_right-IsName (reverse (trim_left kept)) (
      rw (reverse-reverse (trim_left kept)) (record {
        text = IsText-trim_left kept cleaned.0;
        short = omega (arith, length-trim_left-le kept, cleaned.1);
      }))

host_name_option-IsName : (options : List ℕ) → IsName (host_name_option options)
unfolding host_name_option
host_name_option-IsName options = elim (Option-cases (find_option options 12)) [
  | inl e ↦ rw (e, host_name_option) blank-IsName
  | inr (value, e) ↦ rw (e, host_name_option) (sanitize-IsName (until_nul value))
]

fqdn_value-IsName : (value : List ℕ) → IsName (fqdn_value value)
unfolding fqdn_value
fqdn_value-IsName [] = blank-IsName
fqdn_value-IsName (a ∷ []) = blank-IsName
fqdn_value-IsName (a ∷ b ∷ []) = blank-IsName
fqdn_value-IsName (a ∷ b ∷ c ∷ name) =
    let text = if a / 4 % 2 == 1 then decode_dns_name name else until_nul name in
    drop_dots-IsName (reverse (sanitize text))
      (rw (reverse-reverse (sanitize text)) (sanitize-IsName text))

fqdn_option-IsName : (options : List ℕ) → IsName (fqdn_option options)
unfolding fqdn_option
fqdn_option-IsName options = elim (Option-cases (find_option options 81)) [
  | inl e ↦ rw (e, fqdn_option) blank-IsName
  | inr (value, e) ↦ rw (e, fqdn_option) (fqdn_value-IsName value)
]

-- Whatever bytes the options hold, the name taken from them has at most 32 bytes, each of which is
-- printable ASCII other than the separator of the stored lists, or belongs to a sequence of a lead
-- byte of UTF-8 and the one to three continuation bytes that it announces; cutting the name to
-- length, to its trailing blanks and dots and to its first label never splits such a sequence.
-- Overlong forms, surrogates and the control characters from U+0080 on are not excluded.
pub from_options-IsName : (options : List ℕ) → IsName (from_options options)
unfolding from_options
from_options-IsName options =
    let full = fqdn_option-IsName options in
    let labelled : IsName (short_label (fqdn_option options)) = record {
      text = short_label-IsText (fqdn_option options) full.text;
      short = omega (arith, length-short_label-le (fqdn_option options), full.short);
    } in
    elim (host_name_option options)
        as (λ h.
          IsName h → IsName (elim h [ [] ↦ short_label (fqdn_option options) | c ∷ cs ↦ c ∷ cs ])) [
            | [] ↦ λ n. labelled
            | c ∷ cs ↦ λ n. n
          ]
      (host_name_option-IsName options)
