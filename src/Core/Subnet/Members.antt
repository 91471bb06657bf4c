-- ===== src/Core/Subnet/Members.antt =====
-- Membership in a subnet, against the network as the addresses that agree before its host bits.
use native.Mathlib.Nat.{mul-div_cancel, div-add-mod', div-lt_iff_lt-mul, mod-lt}
use dhcpserver.Base.{
  ℕ, ◌-◌, ◌*◌, ◌/◌, ◌%◌, ◌^◌, ◌≤◌, ◌<◌, ◌≡◌, inl, inr, refl, sym, ap, ap₂, ◌∙◌, Bool, true, false,
  not, ◌&&◌, ◌||◌, leb, ◌==◌, bit_and, bit_and-prefix, bit_and-successor, ◌+◌, ◌≢◌, u32_mod, arith,
  Bool-cases,
}
use dhcpserver.Core.Subnet.{is_valid_mask, mask_from_prefix, network, contains}
use dhcpserver.Core.Subnet.Masks.{all_below, all_below-at, prefix_length-mask_from_prefix}

-- The mask of each length, and the numbers of addresses and of networks.
mask_shape : ℕ → Bool
mask_shape p =
    p == 0
    || (mask_from_prefix p == (2 ^ p - 1) * 2 ^ (32 - p)
        && not (mask_from_prefix p == 0)
        && 2 ^ p * 2 ^ (32 - p) == u32_mod
        && leb 1 (2 ^ (32 - p)))

all_mask_shapes : all_below 33 mask_shape ≡ true
unfolding all_below mask_shape mask_from_prefix
all_mask_shapes = refl

record MaskShape (p : ℕ) : Type 0 where
  mask : mask_from_prefix p ≡ (2 ^ p - 1) * 2 ^ (32 - p)
  some_bits : (mask_from_prefix p == 0) ≡ false
  whole : 2 ^ p * 2 ^ (32 - p) ≡ u32_mod
  hosts : 0 < 2 ^ (32 - p)
  valid : is_valid_mask (mask_from_prefix p) ≡ true

MaskShape-mask_from_prefix : (p : ℕ) → 0 < p → p ≤ 32 → MaskShape p
unfolding mask_shape
MaskShape-mask_from_prefix p pos small =
    let h = all_below-at 33 p mask_shape all_mask_shapes (omega arith) in
    record {
      mask = ground (arith, h);
      some_bits = ground (arith, h);
      whole = ground (arith, h);
      hosts = ground (arith, h);
      valid = (prefix_length-mask_from_prefix p pos small).0;
    }

-- The network of an address is the first address of its block.
pub network-prefix :
    (p addr : ℕ)
    → 0 < p
    → p ≤ 32
    → addr < u32_mod
    → network addr (mask_from_prefix p) ≡ addr / 2 ^ (32 - p) * 2 ^ (32 - p)
unfolding network
network-prefix p addr pos small fits =
    let s = MaskShape-mask_from_prefix p pos small in
    let block = addr / 2 ^ (32 - p) in
    let block_fits : block < 2 ^ p = (div-lt_iff_lt-mul s.hosts).1 (omega (arith, fits, s.whole)) in
    ap₂ bit_and (sym (div-add-mod' addr (2 ^ (32 - p)))) s.mask
    ∙ bit_and-prefix (32 - p) p block (addr % 2 ^ (32 - p)) block_fits (mod-lt addr s.hosts)

same_block : (a b h : ℕ) → 0 < h → (a * h == b * h) ≡ (a == b)
same_block a b h pos = elim (Bool-cases (a == b)) [
  | inl same ↦
      let e : a ≡ b = ground (arith, same) in
      rw same (ap (λ n. a * h == n * h) (sym e) ∙ ground arith)
  | inr apart ↦ elim (Bool-cases (a * h == b * h)) [
    | inr differ ↦ differ ∙ sym apart
    | inl equal ↦
        let e : a * h ≡ b * h = ground (arith, equal) in
        let back : a ≡ b = sym (mul-div_cancel a pos) ∙ ap (λ n. n / h) e ∙ mul-div_cancel b pos in
        absurd (ground (arith, apart, back))
  ]
]

-- An address is in the network of another exactly when both agree before the host bits of the prefix.
pub contains-network :
    (p net addr : ℕ)
    → 0 < p
    → p ≤ 32
    → net < u32_mod
    → addr < u32_mod
    → contains (network net (mask_from_prefix p)) (mask_from_prefix p) addr
      ≡ (addr / 2 ^ (32 - p) == net / 2 ^ (32 - p))
unfolding contains
contains-network p net addr pos small fits fits' =
    let s = MaskShape-mask_from_prefix p pos small in
    let block = net / 2 ^ (32 - p) in
    let start = network-prefix p net pos small fits in
    let below : network net (mask_from_prefix p) < u32_mod =
      omega (arith, start, fits, div-add-mod' net (2 ^ (32 - p))) in
    let again : network (network net (mask_from_prefix p)) (mask_from_prefix p)
        ≡ block * 2 ^ (32 - p) =
      network-prefix p (network net (mask_from_prefix p)) pos small below
      ∙ ap (λ n. n / 2 ^ (32 - p) * 2 ^ (32 - p)) start
      ∙ ap (λ n. n * 2 ^ (32 - p)) (mul-div_cancel block s.hosts) in
    rw (s.some_bits, s.valid)
      (unfold network in
        ap₂ (λ a b. a == b) (network-prefix p addr pos small fits') again
        ∙ same_block (addr / 2 ^ (32 - p)) block (2 ^ (32 - p)) s.hosts)

pub mask_from_prefix-ne_zero : (p : ℕ) → 0 < p → p ≤ 32 → (mask_from_prefix p == 0) ≡ false
mask_from_prefix-ne_zero p pos small = (MaskShape-mask_from_prefix p pos small).some_bits

-- What each mask lacks to all bits, from the number of its host bits.
mask_rest : ℕ → Bool
mask_rest k = k == 32 || mask_from_prefix (32 - k) + 2 ^ k == u32_mod

all_mask_rests : all_below 33 mask_rest ≡ true
unfolding all_below mask_rest mask_from_prefix
all_mask_rests = refl

top_bits : (k : ℕ) → k ≤ 32 → k < 32 → mask_from_prefix (32 - k) + 2 ^ k ≡ u32_mod
unfolding mask_rest
top_bits k le small = ground (arith, all_below-at 33 k mask_rest all_mask_rests (omega (arith, le)))

-- A contiguous mask other than 0 is the mask of a prefix length.
pub is_valid_mask-prefix :
    (mask : ℕ)
    → mask < u32_mod
    → mask ≢ 0
    → is_valid_mask mask ≡ true
    → (p : ℕ) × (0 < p) × (p ≤ 32) × (mask ≡ mask_from_prefix p)
unfolding is_valid_mask
is_valid_mask-prefix mask fits nz valid =
    let host : ℕ = u32_mod - 1 - mask in
    let wraps : (host + 1) % u32_mod ≡ host + 1 = omega (arith, fits, nz) in
    let apart : bit_and host ((host + 1) % u32_mod) ≡ 0 = ground (arith, valid) in
    let (k, le, top) =
      bit_and-successor 32 host (omega (arith, fits)) (ap (bit_and host) (sym wraps) ∙ apart) in
    let small = top_bits k le in
    let less : k ≢ 32 = λ q. absurd (omega (arith, fits, nz, top ∙ ap (λ n. 2 ^ n) q)) in
    (
      32 - k,
      omega (arith, le, less),
      omega arith,
      omega (arith, fits, top, small (omega (arith, le, less))),
    )
