-- ===== src/Core/SubnetFilter/Decisions.antt =====
-- Whom a filter that was set from the settings lets pass.
use dhcpserver.Base.{
  ℕ, ◌-◌, ◌/◌, ◌^◌, ◌≤◌, ◌<◌, ◌≡◌, ◌≢◌, inl, inr, refl, ap, ◌∙◌, ◌⊎◌, true, false, none, some, ◌==◌,
  if◌then◌else◌, u32_mod, arith, Bool-cases, Option-cases,
}
use dhcpserver.Core.Subnet.{parse_ip4, is_valid_mask, mask_from_prefix}
use dhcpserver.Core.Subnet.Masks.{prefix_length-mask_from_prefix}
use dhcpserver.Core.Subnet.Members.{
  contains-network, mask_from_prefix-ne_zero, is_valid_mask-prefix,
}
use dhcpserver.Core.SubnetFilter.{Settings, SubnetFilter, ip_ok, mask_ok, apply, contains}

-- Settings that name no own subnet: the filter is off, the address or the mask is no address in text
-- or is 0.0.0.0, or the mask is none that a prefix length has.
pub data Unusable (cfg : Settings) : Type 0 where
  switched_off : cfg.enabled ≡ false → Unusable cfg
  no_address : parse_ip4 cfg.device_ip ≡ none → Unusable cfg
  zero_address : parse_ip4 cfg.device_ip ≡ some 0 → Unusable cfg
  no_mask : parse_ip4 cfg.netmask ≡ none → Unusable cfg
  zero_mask : parse_ip4 cfg.netmask ≡ some 0 → Unusable cfg
  broken_mask :
      {mask : ℕ}
      → parse_ip4 cfg.netmask ≡ some mask
      → mask < u32_mod
      → ((p : ℕ) → 0 < p → p ≤ 32 → mask ≢ mask_from_prefix p)
      → Unusable cfg

unset_open :
    (f : SubnetFilter) (cfg : Settings) (client : ℕ)
    → (cfg.enabled ≡ false)
      ⊎ ((ip_ok (parse_ip4 cfg.device_ip) ≡ none) ⊎ (mask_ok (parse_ip4 cfg.netmask) ≡ none))
    → contains (apply f cfg) client ≡ true
unfolding apply contains
unset_open f cfg client h = elim (Bool-cases cfg.enabled) [
  | inr off ↦ rw off refl
  | inl on ↦ elim (Option-cases (ip_ok (parse_ip4 cfg.device_ip))) [
    | inl gone ↦ rw (on, gone) (rw on refl)
    | inr (addr, ip) ↦ elim (Option-cases (mask_ok (parse_ip4 cfg.netmask))) [
      | inl gone ↦ rw (on, ip, gone) (rw on refl)
      | inr (mask, ok) ↦ absurd (ground (arith, on, ip, ok, h))
    ]
  ]
]

no_prefix :
    (mask : ℕ)
    → mask < u32_mod
    → ((p : ℕ) → 0 < p → p ≤ 32 → mask ≢ mask_from_prefix p)
    → mask_ok (some mask) ≡ none
no_prefix mask fits broken = elim (Bool-cases (mask == 0)) [
  | inl z ↦ rw z refl
  | inr nz ↦ elim (Bool-cases (is_valid_mask mask)) [
    | inr bad ↦ rw (nz, bad) refl
    | inl good ↦
        let (p, pos, small, shape) = is_valid_mask-prefix mask fits (ground arith) good in
        absurd (broken p pos small shape)
  ]
]

-- Settings that name no own subnet let every client pass, whatever was set before: the filter is
-- off, the text of the address or of the mask is not read or is read as 0.0.0.0, or the mask is not
-- that of a prefix length between 1 and 32.
pub fails_open :
    (f : SubnetFilter) (cfg : Settings) (client : ℕ)
    → Unusable cfg
    → contains (apply f cfg) client ≡ true
fails_open f cfg client (switched_off e) = unset_open f cfg client (inl e)
fails_open f cfg client (no_address e) = unset_open f cfg client (inr (inl (ap ip_ok e)))
fails_open f cfg client (zero_address e) = unset_open f cfg client (inr (inl (ap ip_ok e)))
fails_open f cfg client (no_mask e) = unset_open f cfg client (inr (inr (ap mask_ok e)))
fails_open f cfg client (zero_mask e) = unset_open f cfg client (inr (inr (ap mask_ok e)))
fails_open f cfg client (broken_mask {mask} e fits broken) =
    unset_open f cfg client (inr (inr (ap mask_ok e ∙ no_prefix mask fits broken)))

-- A filter that is set from an address other than 0.0.0.0 and the mask of a prefix length is strict
-- when it is on, whatever was set before: exactly the clients pass that agree with the address
-- before the host bits. When it is off, every client passes.
pub contains-apply :
    (f : SubnetFilter) (cfg : Settings) (p addr client : ℕ)
    → parse_ip4 cfg.device_ip ≡ some addr
    → parse_ip4 cfg.netmask ≡ some (mask_from_prefix p)
    → 0 < p
    → p ≤ 32
    → addr ≢ 0
    → addr < u32_mod
    → client < u32_mod
    → contains (apply f cfg) client
      ≡ (if cfg.enabled then client / 2 ^ (32 - p) == addr / 2 ^ (32 - p) else true)
unfolding apply contains
contains-apply f cfg p addr client ip mask pos small there fits fits' =
    elim (Bool-cases cfg.enabled) [
      | inr off ↦ rw off refl
      | inl on ↦
          let given : ip_ok (parse_ip4 cfg.device_ip) ≡ some addr =
            ap ip_ok ip ∙ ground (arith, there) in
          let good : mask_ok (parse_ip4 cfg.netmask) ≡ some (mask_from_prefix p) =
            ap mask_ok mask
            ∙ rw
                (
                  mask_from_prefix-ne_zero p pos small,
                  (prefix_length-mask_from_prefix p pos small).0,
                )
                refl in
          rw (on, given, good) (rw on (contains-network p addr client pos small fits fits'))
    ]
