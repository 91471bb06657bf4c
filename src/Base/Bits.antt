-- ===== src/Base/Bits.antt =====
-- A mask of high bits, read as arithmetic: it keeps the multiple of a power of two below a number.
use Prim.Native.Nat.{
  ℕ, zero, suc, min, ◌+◌, ◌-◌, ◌*◌, ◌/◌, ◌%◌, ◌^◌, ◌≤◌, ◌<◌, bit_and, digits, bit_and-bitwise,
}
use native.Mathlib.Nat.{pow-suc, one-le-pow}
use native.Mathlib.Omega.{arith}
use mathlib.Core.Path.{◌≡◌, refl, sym, ap, ◌∙◌}
use mathlib.Core.Logic.{◌⊎◌, inl, inr}

abbrev low : ℕ → ℕ
low b = 0

-- The fuel of the recursion on binary digits, when it is enough, makes no difference.
digits-enough : (n m a b : ℕ) → a ≤ n → n ≤ m → digits low min n a b ≡ digits low min m a b
digits-enough zero zero a b h k = refl
digits-enough zero (suc m) zero b h k = refl
digits-enough zero (suc m) (suc a) b h k = absurd (omega arith)
digits-enough (suc n) zero a b h k = absurd (omega arith)
digits-enough (suc n) (suc m) zero b h k = refl
digits-enough (suc n) (suc m) (suc a) b h k =
    ap (λ d. d * 2 + min (suc a % 2) (b % 2))
      (digits-enough n m (suc a / 2) (b / 2) (omega arith) (omega arith))

bit_and-halves : (a b : ℕ) → bit_and a b ≡ bit_and (a / 2) (b / 2) * 2 + min (a % 2) (b % 2)
bit_and-halves zero b = simp bit_and-bitwise (omega arith)
bit_and-halves (suc a) b =
    let rest = digits-enough (suc a / 2) a (suc a / 2) (b / 2) (omega arith) (omega arith) in
    simp bit_and-bitwise (omega (arith, rest))

twice : (q h : ℕ) → q * 2 ^ suc h ≡ 2 * (q * 2 ^ h)
twice q h = omega (arith, ap (λ (t : ℕ). q * t) (pow-suc 2 h))

-- All bits of a number that fits them.
bit_and-ones : (p a : ℕ) → a < 2 ^ p → bit_and a (2 ^ p - 1) ≡ a
bit_and-ones zero a h =
    let none_left : a ≡ 0 = omega arith in rw none_left (simp bit_and-bitwise refl)
bit_and-ones (suc p) a h = ground (
  arith,
  bit_and-halves a (2 ^ suc p - 1),
  pow-suc 2 p,
  one-le-pow p 2,
  bit_and-ones p (a / 2) (omega (arith, h, pow-suc 2 p)),
)

pub bit_and-prefix :
    (h p q r : ℕ)
    → q < 2 ^ p
    → r < 2 ^ h
    → bit_and (q * 2 ^ h + r) ((2 ^ p - 1) * 2 ^ h) ≡ q * 2 ^ h
bit_and-prefix zero p q r fits small = ground (arith, bit_and-ones p q fits)
bit_and-prefix (suc h) p q r fits small = ground (
  arith,
  bit_and-halves (q * 2 ^ suc h + r) ((2 ^ p - 1) * 2 ^ suc h),
  twice q h,
  twice (2 ^ p - 1) h,
  bit_and-prefix h p q (r / 2) fits (omega (arith, small, pow-suc 2 h)),
)

is_zero : (m : ℕ) → (m ≡ 0) ⊎ (0 < m)
is_zero zero = inl refl
is_zero (suc m) = inr (omega arith)

mod-two : (a : ℕ) → (a % 2 ≡ 0) ⊎ (a % 2 ≡ 1)
mod-two a = elim (is_zero (a % 2)) [ inl z ↦ inl z | inr p ↦ inr (omega (arith, p)) ]

bit_and_self : (n a : ℕ) → a < 2 ^ n → bit_and a a ≡ a
bit_and_self zero a h =
    let none_left : a ≡ 0 = omega arith in rw none_left (simp bit_and-bitwise refl)
bit_and_self (suc n) a h =
    ground (arith, bit_and-halves a a, bit_and_self n (a / 2) (omega (arith, h, pow-suc 2 n)))

-- A number that has no bit in common with its successor is one less than a power of two.
pub bit_and-successor :
    (n a : ℕ) → a < 2 ^ n → bit_and a (a + 1) ≡ 0 → (k : ℕ) × (k ≤ n) × (a + 1 ≡ 2 ^ k)
bit_and-successor zero a h e = (0, omega arith, omega arith)
bit_and-successor (suc n) a h e =
    let halves = bit_and-halves a (a + 1) in
    let fits : a / 2 < 2 ^ n = omega (arith, h, pow-suc 2 n) in
    elim (mod-two a) [
      | inl even ↦
          let same : (a + 1) / 2 ≡ a / 2 = omega (arith, even) in
          let square = bit_and_self n (a / 2) fits in
          let again : bit_and (a / 2) ((a + 1) / 2) ≡ a / 2 = rw same square in
          let nothing : a ≡ 0 = ground (arith, e, halves, even, again) in
          (0, omega arith, rw nothing refl)
      | inr odd ↦
          let up : (a + 1) / 2 ≡ a / 2 + 1 = omega (arith, odd) in
          let clear : bit_and (a / 2) ((a + 1) / 2) ≡ 0 = ground (arith, e, halves, odd) in
          let (k, le, top) =
            bit_and-successor n (a / 2) fits (ap (bit_and (a / 2)) (sym up) ∙ clear) in
          (suc k, omega (arith, le), omega (arith, odd, top, pow-suc 2 k))
    ]
