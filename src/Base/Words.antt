-- ===== src/Base/Words.antt =====
-- uint32_t values, and the byte order of an address: `htonl` and `ntohl` on a little-endian core.
use Prim.Native.Nat.{ℕ, ◌+◌, ◌*◌, ◌/◌, ◌%◌, ◌<◌}
use mathlib.Core.Path.{◌≡◌}
use mathlib.Core.List.{List, [], ◌∷◌}
use native.Mathlib.Omega.{arith}

abbrev pub u32_mod : ℕ
u32_mod = 4294967296

abbrev pub u64_mod : ℕ
u64_mod = 18446744073709551616

-- The four bytes of an address in memory, first to last.
abbrev pub byte0 : ℕ → ℕ
byte0 x = x % 256

abbrev pub byte1 : ℕ → ℕ
byte1 x = x / 256 % 256

abbrev pub byte2 : ℕ → ℕ
byte2 x = x / 65536 % 256

abbrev pub byte3 : ℕ → ℕ
byte3 x = x / 16777216 % 256

-- The word whose bytes in memory are `a b c d`.
abbrev pub word : ℕ → ℕ → ℕ → ℕ → ℕ
word a b c d = a + b * 256 + c * 65536 + d * 16777216

-- What `memcpy` of a word stores.
abbrev pub word_bytes : ℕ → List ℕ
word_bytes x = byte0 x ∷ byte1 x ∷ byte2 x ∷ byte3 x ∷ []

-- ntohl and htonl.
unfoldable pub ntohl : ℕ → ℕ
ntohl x = word (byte3 x) (byte2 x) (byte1 x) (byte0 x)

pub ntohl-word :
    (a b c d : ℕ) → a < 256 → b < 256 → c < 256 → d < 256 → ntohl (word a b c d) ≡ word d c b a
unfolding ntohl
ntohl-word a b c d ha hb hc hd = omega arith

pub ntohl-ntohl : (x : ℕ) → x < u32_mod → ntohl (ntohl x) ≡ x
unfolding ntohl
ntohl-ntohl x h = omega arith

pub ntohl_bound : (x : ℕ) → ntohl x < u32_mod
unfolding ntohl
ntohl_bound x = omega arith
