-- ===== src/Core/SubnetFilter.antt =====
-- src/core/SubnetFilter.h and SubnetFilter.cpp: whom the DNS, NTP and file services answer. Addresses
-- are in host byte order.
pub mod Decisions
pub mod Examples
use dhcpserver.Base.{
  ℕ, Bool, true, false, not, ◌&&◌, ◌||◌, List, [], ◌∷◌, Option, none, some, ◌==◌, if◌then◌else◌,
}
use dhcpserver.Core.Subnet
use dhcpserver.Core.Subnet.{parse_ip4, is_valid_mask}

pub record Settings : Type 0 where
  pub enabled : Bool
  pub device_ip : List ℕ
  pub netmask : List ℕ

pub record SubnetFilter : Type 0 where
  pub enabled : Bool
  pub valid : Bool
  pub network : ℕ
  pub mask : ℕ
  pub device_ip : List ℕ
  pub netmask : List ℕ

abbrev pub init : SubnetFilter
init = record {
  enabled = false;
  valid = false;
  network = 0;
  mask = 0;
  device_ip = [];
  netmask = [];
}

-- The address and the mask when they pass their tests; none for a text that is no address.
abbrev pub ip_ok : Option ℕ → Option ℕ
ip_ok none = none
ip_ok (some addr) = if not (addr == 0) then some addr else none

abbrev pub mask_ok : Option ℕ → Option ℕ
mask_ok none = none
mask_ok (some mask) = if not (mask == 0) && is_valid_mask mask then some mask else none

unfoldable pub apply : SubnetFilter → Settings → SubnetFilter
apply f cfg =
    let reset = record f {
      enabled = cfg.enabled;
      device_ip = cfg.device_ip;
      netmask = cfg.netmask;
      valid = false;
      network = 0;
      mask = 0;
    } in
    if not cfg.enabled then reset else elim (ip_ok (parse_ip4 cfg.device_ip)) [
      | none ↦ reset
      | some addr ↦ elim (mask_ok (parse_ip4 cfg.netmask)) [
        | none ↦ reset
        | some mask ↦ record reset { network = Subnet.network addr mask; mask = mask; valid = true }
      ]
    ]

abbrev pub active : SubnetFilter → Bool
active f = f.enabled && f.valid

unfoldable pub contains : SubnetFilter → ℕ → Bool
contains f client_ip = if not (active f) then true else Subnet.contains f.network f.mask client_ip
