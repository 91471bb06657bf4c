-- ===== src/Dhcp/Mac.antt =====
-- The MAC address codec of src/dhcp/DhcpAllowedList.cpp. An address is the list of its bytes.
use dhcpserver.Base.{
  ℕ, zero, suc, ◌+◌, ◌-◌, ◌*◌, ◌/◌, ◌%◌, ◌<◌, ◌≤◌, ◌≡◌, refl, Bool, false, ◌&&◌, ◌||◌, List, [],
  ◌∷◌, Option, none, some, ltb, leb, ◌==◌, if◌then◌else◌, arith, length,
}

-- `isspace` of the C locale.
abbrev pub is_space : ℕ → Bool
is_space c = c == 32 || (leb 9 c && leb c 13)

-- `hexNibble`: none stands for -1.
unfoldable pub hex_nibble : ℕ → Option ℕ
hex_nibble c =
    if leb b'0' c && leb c b'9'
    then some (c - b'0')
    else if leb b'a' c && leb c b'f'
    then some (c - b'a' + 10)
    else if leb b'A' c && leb c b'F'
    then some (c - b'A' + 10)
    else none

unfoldable pub is_separator : ℕ → Bool
is_separator c = c == b':' || c == b'-' || c == b'.' || is_space c

-- The loop of `parseMac` over the text, with the number of digits stored so far.
unfoldable pub hex_digits : List ℕ → ℕ → Option (List ℕ)
hex_digits [] n = some []
hex_digits (c ∷ cs) n =
    let rest = hex_digits cs (if is_separator c then n else n + 1) in
    if is_separator c then rest else elim (hex_nibble c) [
      | none ↦ none
      | some v ↦ if leb 12 n then none else elim rest [ none ↦ none | some vs ↦ some (v ∷ vs) ]
    ]

-- Two digits to a byte, when there are exactly twelve.
unfoldable pub pair_digits : ℕ → List ℕ → Option (List ℕ)
pair_digits zero [] = some []
pair_digits zero (d ∷ ds) = none
pair_digits (suc n) [] = none
pair_digits (suc n) (d ∷ []) = none
pair_digits (suc n) (d ∷ e ∷ ds) =
    let rest = pair_digits n ds in elim rest [ none ↦ none | some bs ↦ some ((d * 16 + e) ∷ bs) ]

unfoldable pub parse_mac : List ℕ → Option (List ℕ)
unfolding hex_digits pair_digits hex_nibble is_separator
parse_mac text = elim (hex_digits text 0) [ none ↦ none | some ds ↦ pair_digits 6 ds ]

-- `%x` of one digit.
unfoldable pub hex_char : ℕ → ℕ
hex_char v = if ltb v 10 then b'0' + v else b'a' + (v - 10)

abbrev pub hex_byte : ℕ → List ℕ
hex_byte b = hex_char (b / 16) ∷ hex_char (b % 16) ∷ []

-- "%02x:%02x:%02x:%02x:%02x:%02x"
unfoldable pub format_mac : List ℕ → List ℕ
unfolding hex_char
format_mac [] = []
format_mac (b ∷ []) = hex_byte b
format_mac (b ∷ c ∷ bs) = hex_char (b / 16) ∷ hex_char (b % 16) ∷ b':' ∷ format_mac (c ∷ bs)

unfoldable pub normalize_mac : List ℕ → List ℕ
unfolding parse_mac format_mac
normalize_mac text = elim (parse_mac text) [ none ↦ [] | some bytes ↦ format_mac bytes ]

-- Six bytes.
abbrev pub AllBytes : List ℕ → Type 0
AllBytes [] = Unit {0}
AllBytes (b ∷ bs) = (b < 256) × AllBytes bs

pub record IsMac (m : List ℕ) : Type 0 where
  pub size : length m ≡ 6
  pub bytes : AllBytes m

hex_char_table :
    (v : ℕ) → v < 16 → (hex_nibble (hex_char v) ≡ some v) × (is_separator (hex_char v) ≡ false)
unfolding hex_nibble hex_char is_separator
hex_char_table v h = (ground arith, ground arith)

-- One formatted byte is read back as its two digits.
hex_digits-byte :
    (b n : ℕ) (rest ds : List ℕ)
    → b < 256
    → n + 2 ≤ 12
    → hex_digits rest (n + 2) ≡ some ds
    → hex_digits (hex_char (b / 16) ∷ hex_char (b % 16) ∷ rest) n ≡ some (b / 16 ∷ b % 16 ∷ ds)
unfolding hex_digits
hex_digits-byte b n rest ds h k e =
    let hi = hex_char_table (b / 16) (omega arith) in
    let lo = hex_char_table (b % 16) (omega arith) in
    let two : n + 1 + 1 ≡ n + 2 = omega arith in ground (arith, hi.1, lo.1, hi.0, lo.0, two, e)

abbrev digits_of : List ℕ → List ℕ
digits_of [] = []
digits_of (b ∷ bs) = b / 16 ∷ b % 16 ∷ digits_of bs

hex_digits-format_mac :
    (bs : List ℕ) (n : ℕ)
    → AllBytes bs
    → n + 2 * length bs ≤ 12
    → hex_digits (format_mac bs) n ≡ some (digits_of bs)
unfolding format_mac hex_digits is_separator
hex_digits-format_mac [] n a h = refl
hex_digits-format_mac (b ∷ []) n a h = hex_digits-byte b n [] [] a.0 (omega arith) refl
hex_digits-format_mac (b ∷ c ∷ bs) n a h =
    hex_digits-byte b n (b':' ∷ format_mac (c ∷ bs)) (digits_of (c ∷ bs)) a.0 (omega arith)
      (hex_digits-format_mac (c ∷ bs) (n + 2) a.1 (omega arith))

pair_digits-digits_of : (bs : List ℕ) → pair_digits (length bs) (digits_of bs) ≡ some bs
unfolding pair_digits
pair_digits-digits_of [] = refl
pair_digits-digits_of (b ∷ bs) =
    let e : b / 16 * 16 + b % 16 ≡ b = omega arith in rw (pair_digits-digits_of bs, e) refl

-- A formatted address is read back: parse_mac inverts format_mac on every six-byte address.
pub parse_mac-format_mac : (m : List ℕ) → IsMac m → parse_mac (format_mac m) ≡ some m
unfolding parse_mac
parse_mac-format_mac m v =
    rw (hex_digits-format_mac m 0 v.bytes (omega (arith, v.size)), parse_mac)
      (rw v.size at (pair_digits-digits_of m))
