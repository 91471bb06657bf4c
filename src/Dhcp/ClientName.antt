-- ===== src/Dhcp/ClientName.antt =====
-- src/dhcp/DhcpClientName.cpp: the name that a client gives in its options. A byte range is a list
-- of bytes; the loops over an index run on the rest of the list, with its length as fuel.
pub mod Text
pub mod Clean
use mathlib.Core.List.{reverse}
use dhcpserver.Base.{
  ℕ, zero, suc, ◌+◌, ◌-◌, ◌/◌, ◌%◌, Bool, true, false, not, ◌&&◌, ◌||◌, List, [], ◌∷◌, ◌++◌, Option,
  none, some, ltb, leb, ◌==◌, if◌then◌else◌, length, take, drop,
}

-- kMaxLen
abbrev pub max_len : ℕ
max_len = 32

-- findOption: the value of the first option with that code, none where the source gives nullptr.
unfoldable pub find_option_fuel : ℕ → List ℕ → ℕ → Option (List ℕ)
find_option_fuel zero options code = none
find_option_fuel (suc fuel) [] code = none
find_option_fuel (suc fuel) (opt ∷ []) code = none
find_option_fuel (suc fuel) (opt ∷ n ∷ rest) code =
    let past_pad = find_option_fuel fuel (n ∷ rest) code in
    let past_option = find_option_fuel fuel (drop n rest) code in
    if opt == 0
    then past_pad
    else if opt == 255
    then none
    else if ltb (length rest) n
    then none
    else if opt == code
    then some (take n rest)
    else past_option

unfoldable pub find_option : List ℕ → ℕ → Option (List ℕ)
find_option options code = find_option_fuel (length options) options code

-- "`.` unless the text is empty": what precedes a further label.
abbrev pub dotted : List ℕ → List ℕ
dotted [] = []
dotted (c ∷ cs) = (c ∷ cs) ++ (b'.' ∷ [])

-- decodeDnsName, with the text decoded so far.
unfoldable pub decode_labels : ℕ → List ℕ → List ℕ → List ℕ
decode_labels zero bytes out = out
decode_labels (suc fuel) [] out = out
decode_labels (suc fuel) (n ∷ rest) out =
    let later = decode_labels fuel (drop n rest) (dotted out ++ take n rest) in
    if n == 0 then out else if ltb 63 n || ltb (length rest) n then [] else later

unfoldable pub decode_dns_name : List ℕ → List ℕ
decode_dns_name bytes = decode_labels (length bytes) bytes []

-- The bytes before the first NUL.
unfoldable pub until_nul : List ℕ → List ℕ
until_nul [] = []
until_nul (c ∷ cs) = if c == 0 then [] else c ∷ until_nul cs

-- (c & 0xC0) == 0x80, on a byte.
abbrev pub is_continuation : List ℕ → ℕ → Bool
is_continuation [] k = false
is_continuation (c ∷ cs) zero = c / 64 == 2
is_continuation (c ∷ cs) (suc k) = is_continuation cs k

-- The length of the character that a byte leads, 1 where it leads none.
unfoldable pub char_len : ℕ → ℕ
char_len c =
    if leb 194 c && leb c 223
    then 2
    else if leb 224 c && leb c 239
    then 3
    else if leb 240 c && leb c 244
    then 4
    else 1

-- Whether the character is kept, the byte and what follows it given.
unfoldable pub keeps : ℕ → List ℕ → Bool
keeps c rest =
    if leb 32 c && ltb c 127
    then not (c == b'|')
    else if leb 194 c && leb c 223
    then is_continuation rest 0
    else if leb 224 c && leb c 239
    then is_continuation rest 0 && is_continuation rest 1
    else if leb 240 c && leb c 244
    then is_continuation rest 0 && is_continuation rest 1 && is_continuation rest 2
    else false

-- The loop of sanitize over the rest of the name, with the bytes kept so far.
unfoldable pub clean : ℕ → ℕ → List ℕ → List ℕ
clean zero kept name = []
clean (suc fuel) kept [] = []
clean (suc fuel) kept (c ∷ rest) =
    let after_char = clean fuel (kept + char_len c) (drop (char_len c - 1) rest) in
    let after_byte = clean fuel kept rest in
    if keeps c rest
    then (if ltb max_len (kept + char_len c)
        then []
        else take (char_len c) (c ∷ rest) ++ after_char)
    else after_byte

unfoldable pub trim_left : List ℕ → List ℕ
trim_left [] = []
trim_left (c ∷ cs) = if c == 32 then trim_left cs else c ∷ cs

abbrev pub trim_right : List ℕ → List ℕ
trim_right cs = reverse (trim_left (reverse cs))

unfoldable pub sanitize : List ℕ → List ℕ
sanitize name = trim_right (trim_left (clean (length name) 0 name))

unfoldable pub host_name_option : List ℕ → List ℕ
host_name_option options = elim (find_option options 12) [
  | none ↦ []
  | some value ↦ sanitize (until_nul value)
]

unfoldable pub drop_dots : List ℕ → List ℕ
drop_dots [] = []
drop_dots (c ∷ cs) = if c == b'.' then drop_dots cs else c ∷ cs

-- The text of option 81 behind its three bytes of flags and codes; kFqdnFlagE is bit 2.
unfoldable pub fqdn_value : List ℕ → List ℕ
fqdn_value (flags ∷ rcode1 ∷ rcode2 ∷ name) = reverse (
    drop_dots
      (reverse (sanitize (if flags / 4 % 2 == 1 then decode_dns_name name else until_nul name))))
fqdn_value _ = []

unfoldable pub fqdn_option : List ℕ → List ℕ
fqdn_option options = elim (find_option options 81) [ none ↦ [] | some value ↦ fqdn_value value ]

unfoldable pub short_label : List ℕ → List ℕ
short_label [] = []
short_label (c ∷ cs) = if c == b'.' then [] else c ∷ short_label cs

unfoldable pub from_options : List ℕ → List ℕ
from_options options = elim (host_name_option options) [
  | [] ↦ short_label (fqdn_option options)
  | c ∷ cs ↦ c ∷ cs
]
