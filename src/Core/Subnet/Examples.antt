-- ===== src/Core/Subnet/Examples.antt =====
-- Addresses and masks at concrete values.
use dhcpserver.Base.{ℕ, ◌≡◌, refl, true, some, none, arith, [], ◌∷◌}
use dhcpserver.Core.Subnet.{
  parse_ip4, to_string, decimal, is_valid_mask, mask_from_prefix, prefix_length, host_bits,
  trailing_zeros, strip_begin, strip_end, octet, parts,
}
use dhcpserver.Core.Subnet.Text.{parse_ip4-to_string}
use dhcpserver.Core.Subnet.Masks.{prefix_length-mask_from_prefix}

-- 192.168.1.1
abbrev router_ip : ℕ
router_ip = 3232235777

parse_ip4-to_string_example : parse_ip4 (to_string router_ip) ≡ some router_ip
parse_ip4-to_string_example = parse_ip4-to_string router_ip (omega arith)

printed :
    to_string router_ip
    ≡ (b'1' ∷ b'9' ∷ b'2' ∷ b'.' ∷ b'1' ∷ b'6' ∷ b'8' ∷ b'.' ∷ b'1' ∷ b'.' ∷ b'1' ∷ [])
unfolding to_string decimal
printed = refl

-- " 10.0.0.7 " is an address, "10.0.0.256" is none.
padded :
    parse_ip4 (b' ' ∷ b'1' ∷ b'0' ∷ b'.' ∷ b'0' ∷ b'.' ∷ b'0' ∷ b'.' ∷ b'7' ∷ b' ' ∷ [])
    ≡ some 167772167
unfolding parse_ip4 strip_begin strip_end octet parts
padded = refl

too_large :
    parse_ip4 (b'1' ∷ b'0' ∷ b'.' ∷ b'0' ∷ b'.' ∷ b'0' ∷ b'.' ∷ b'2' ∷ b'5' ∷ b'6' ∷ []) ≡ none
unfolding parse_ip4 strip_begin strip_end octet parts
too_large = refl

prefix_length-mask_from_prefix_example :
    (is_valid_mask (mask_from_prefix 24) ≡ true) × (prefix_length (mask_from_prefix 24) ≡ some 24)
prefix_length-mask_from_prefix_example =
    prefix_length-mask_from_prefix 24 (omega arith) (omega arith)

prefix_of_nothing : prefix_length (mask_from_prefix 0) ≡ some 32
unfolding prefix_length mask_from_prefix is_valid_mask host_bits trailing_zeros
prefix_of_nothing = refl
