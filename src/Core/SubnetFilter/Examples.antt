-- ===== src/Core/SubnetFilter/Examples.antt =====
-- The filter of an own subnet at work.
use dhcpserver.Base.{
  ℕ, ◌-◌, ◌/◌, ◌^◌, ◌≡◌, ◌==◌, refl, true, List, [], ◌∷◌, some, if◌then◌else◌, arith,
}
use dhcpserver.Core.Subnet.{parse_ip4, strip_begin, strip_end, octet, parts, mask_from_prefix}
use dhcpserver.Core.SubnetFilter.{Settings, init, apply, contains}
use dhcpserver.Core.SubnetFilter.Decisions.{zero_mask, fails_open, contains-apply}

-- "192.168.1.1", "255.255.255.0" and "0.0.0.0"
abbrev device_ip : List ℕ
device_ip = b'1' ∷ b'9' ∷ b'2' ∷ b'.' ∷ b'1' ∷ b'6' ∷ b'8' ∷ b'.' ∷ b'1' ∷ b'.' ∷ b'1' ∷ []

abbrev netmask : List ℕ
netmask =
    b'2' ∷ b'5' ∷ b'5' ∷ b'.' ∷ b'2' ∷ b'5' ∷ b'5' ∷ b'.' ∷ b'2' ∷ b'5' ∷ b'5' ∷ b'.' ∷ b'0' ∷ []

abbrev no_mask : List ℕ
no_mask = b'0' ∷ b'.' ∷ b'0' ∷ b'.' ∷ b'0' ∷ b'.' ∷ b'0' ∷ []

abbrev home : Settings
home = record { enabled = true; device_ip = device_ip; netmask = netmask }

abbrev unset : Settings
unset = record { enabled = true; device_ip = device_ip; netmask = no_mask }

device_ip_read : parse_ip4 device_ip ≡ some 3232235777
unfolding parse_ip4 strip_begin strip_end octet parts
device_ip_read = refl

netmask_read : parse_ip4 netmask ≡ some (mask_from_prefix 24)
unfolding parse_ip4 strip_begin strip_end octet parts mask_from_prefix
netmask_read = refl

no_mask_read : parse_ip4 no_mask ≡ some 0
unfolding parse_ip4 strip_begin strip_end octet parts
no_mask_read = refl

fails_open_example : contains (apply init unset) 167772161 ≡ true
fails_open_example = fails_open init unset 167772161 (zero_mask no_mask_read)

contains-apply_example :
    contains (apply init home) 3232236033
    ≡ (if home.enabled then 3232236033 / 2 ^ (32 - 24) == 3232235777 / 2 ^ (32 - 24) else true)
contains-apply_example =
    contains-apply init home 24 3232235777 3232236033 device_ip_read netmask_read (omega arith)
      (omega arith) (omega arith) (omega arith) (omega arith)
