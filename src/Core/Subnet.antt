-- ===== src/Core/Subnet.antt =====
-- src/core/Subnet.h and Subnet.cpp: IPv4 addresses in text, netmasks and membership in a subnet.
-- Addresses are uint32_t values in host byte order.
pub mod Text
pub mod Masks
pub mod Members
pub mod Examples
use dhcpserver.Base.{
  is_empty, ℕ, zero, suc, ◌+◌, ◌-◌, ◌*◌, ◌/◌, ◌%◌, ◌^◌, Bool, true, false, not, ◌&&◌, ◌||◌, List,
  [], ◌∷◌, ◌++◌, Option, none, some, ltb, leb, ◌==◌, if◌then◌else◌, length, bit_and, u32_mod,
}

-- isSpace
abbrev pub is_space : ℕ → Bool
is_space c = c == 32 || c == 9

unfoldable pub strip_begin : List ℕ → List ℕ
strip_begin [] = []
strip_begin (c ∷ cs) = if is_space c then strip_begin cs else c ∷ cs

unfoldable pub strip_end : List ℕ → List ℕ
strip_end [] = []
strip_end (c ∷ cs) = let rest = strip_end cs in if is_space c && is_empty rest then [] else c ∷ rest

abbrev pub is_digit : ℕ → Bool
is_digit c = leb 48 c && leb c 57

-- The inner loop of parseIp4: the value and the number of the digits, and the rest of the text.
unfoldable pub octet : List ℕ → ℕ → ℕ → Option (ℕ × ℕ × List ℕ)
octet [] value digits = some (value, digits, [])
octet (c ∷ cs) value digits =
    let value' = value * 10 + (c - 48) in
    let next = octet cs value' (digits + 1) in
    if is_digit c
    then (if ltb 3 (digits + 1) || ltb 255 value' then none else next)
    else some (value, digits, c ∷ cs)

-- A part in its place; the parts have disjoint bits, so that `|` is `+`.
abbrev pub place : ℕ → ℕ → ℕ → ℕ
place addr value part = addr + value * 2 ^ (8 * (3 - part))

-- The outer loop, from the number of parts and the address so far. A part takes a byte at least.
unfoldable pub parts : ℕ → List ℕ → ℕ → ℕ → Option ℕ
parts zero text part addr = none
parts (suc fuel) text part addr = elim (octet text 0 0) [
  | none ↦ none
  | some (value, digits, rest) ↦ if digits == 0 || leb 4 part then none else elim rest [
    | [] ↦ if part + 1 == 4 then some (place addr value part) else none
    | c ∷ cs ↦
        if not (c == b'.') || is_empty cs
        then none
        else parts fuel cs (part + 1) (place addr value part)
  ]
]

-- parseIp4; `out` is set only on success.
unfoldable pub parse_ip4 : List ℕ → Option ℕ
parse_ip4 text =
    let inner = strip_end (strip_begin text) in
    if is_empty inner then none else parts (length inner) inner 0 0

abbrev pub inverse : ℕ → ℕ
inverse mask = u32_mod - 1 - mask

-- isValidMask
unfoldable pub is_valid_mask : ℕ → Bool
is_valid_mask mask = bit_and (inverse mask) ((inverse mask + 1) % u32_mod) == 0

unfoldable pub network : ℕ → ℕ → ℕ
network addr mask = bit_and addr mask

-- contains
unfoldable pub contains : ℕ → ℕ → ℕ → Bool
contains net mask addr =
    if mask == 0 || not (is_valid_mask mask) then false else bit_and addr mask == bit_and net mask

-- The loop of hostBits; a uint32_t that is not 0 has a bit set among its 32.
unfoldable pub trailing_zeros : ℕ → ℕ → ℕ
trailing_zeros zero m = 0
trailing_zeros (suc fuel) m =
    let rest = trailing_zeros fuel (m / 2) in if not (m == 0) && m % 2 == 0 then rest + 1 else 0

unfoldable pub host_bits : ℕ → ℕ
host_bits mask = trailing_zeros 32 mask

-- maskFromPrefix, for a prefix that is not negative.
unfoldable pub mask_from_prefix : ℕ → ℕ
mask_from_prefix prefix_len =
    if ltb 32 prefix_len
    then 0
    else if prefix_len == 0
    then 0
    else 0xFFFFFFFF * 2 ^ (32 - prefix_len) % u32_mod

-- prefixLength, none for -1.
unfoldable pub prefix_length : ℕ → Option ℕ
prefix_length mask = if is_valid_mask mask then some (32 - host_bits mask) else none

-- "%u" of one octet.
unfoldable pub decimal : ℕ → List ℕ
decimal n =
    if ltb n 10
    then (48 + n) ∷ []
    else if ltb n 100
    then (48 + n / 10) ∷ (48 + n % 10) ∷ []
    else (48 + n / 100) ∷ (48 + n / 10 % 10) ∷ (48 + n % 10) ∷ []

-- toString
unfoldable pub to_string : ℕ → List ℕ
to_string addr =
    decimal (addr / 16777216 % 256)
    ++ (b'.'
        ∷ (decimal (addr / 65536 % 256)
            ++ (b'.' ∷ (decimal (addr / 256 % 256) ++ (b'.' ∷ decimal (addr % 256))))))
