-- ===== src/Core/Subnet/Masks.antt =====
-- Netmasks and prefix lengths.
use dhcpserver.Base.{
  ℕ, zero, suc, ◌≤◌, ◌<◌, ◌≡◌, refl, ap, ◌∙◌, inl, inr, Bool, true, false, ◌&&◌, ◌||◌, none, some,
  ◌==◌, arith, Bool-cases, Option-cases,
}
use dhcpserver.Core.Subnet.{
  is_valid_mask, prefix_length, mask_from_prefix, host_bits, trailing_zeros,
}

-- Whether a test holds of every number below a bound.
unfoldable pub all_below : ℕ → (ℕ → Bool) → Bool
all_below zero test = true
all_below (suc n) test = test n && all_below n test

pub all_below-at : (n k : ℕ) (test : ℕ → Bool) → all_below n test ≡ true → k < n → test k ≡ true
unfolding all_below
all_below-at zero k test h l = absurd (omega arith)
all_below-at (suc n) k test h l = elim (Bool-cases (k == n)) [
  | inl here ↦ let at_n : k ≡ n = ground arith in rw at_n (ground arith)
  | inr below ↦ all_below-at n k test (ground arith) (ground arith)
]

-- The round trip at one length; the length 0 is left out.
round_trip : ℕ → Bool
round_trip p =
    p == 0
    || (is_valid_mask (mask_from_prefix p)
        && elim (prefix_length (mask_from_prefix p)) [ none ↦ false | some q ↦ q == p ])

all_round_trips : all_below 33 round_trip ≡ true
unfolding all_below round_trip is_valid_mask mask_from_prefix prefix_length host_bits trailing_zeros
all_round_trips = refl

-- The mask that is built from a prefix length between 1 and 32 is contiguous, and has that prefix
-- length.
pub prefix_length-mask_from_prefix :
    (p : ℕ)
    → 0 < p
    → p ≤ 32
    → (is_valid_mask (mask_from_prefix p) ≡ true) × (prefix_length (mask_from_prefix p) ≡ some p)
unfolding round_trip
prefix_length-mask_from_prefix p pos small =
    let h = all_below-at 33 p round_trip all_round_trips (omega arith) in
    elim (Option-cases (prefix_length (mask_from_prefix p))) [
      | inl e ↦ absurd (ground (arith, h, e))
      | inr (q, e) ↦
          let same : q ≡ p = ground (arith, h, e) in (ground (arith, h), e ∙ ap (λ x. some x) same)
    ]
