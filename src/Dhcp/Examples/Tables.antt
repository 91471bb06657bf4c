-- ===== src/Dhcp/Examples/Tables.antt =====
-- The hold-down table, the allow-list and the address codec at concrete data.
use dhcpserver.Base.{
  ◌≤◌, replicate, ◌++◌, ℕ, zero, suc, ◌≡◌, refl, true, false, List, [], ◌∷◌, ltb, arith, length,
  bytes_eq,
}
use dhcpserver.Dhcp.Declined
use dhcpserver.Dhcp.Declined.{
  add, is_declined, expire, refresh, fill, held_in, expire_all, oldest_index,
}
use dhcpserver.Dhcp.Declined.Holding.{init-IsValid, is_declined-add}
use dhcpserver.Dhcp.Declined.Eviction.{AllUsed, add_evicts_oldest}
use dhcpserver.Dhcp.Mac.{IsMac, parse_mac, format_mac}
use dhcpserver.Dhcp.AllowedList
use dhcpserver.Dhcp.AllowedList.{AllowedComputer, contains, rebuild}
use dhcpserver.Dhcp.AllowedList.Codec.{
  trim_begin, trim_end, trim, storage_field_text, sanitize_name, serialize, serialized_bytes, parse,
}
use dhcpserver.Dhcp.AllowedList.Stored.{AllStored}
use dhcpserver.Dhcp.AllowedList.Lines.{parse-serialize}
use dhcpserver.Dhcp.AllowedList.Budget.{max_bytes, serialized_bytes_bound}
use dhcpserver.Dhcp.AllowedList.Contents.{lists}
use dhcpserver.Dhcp.AllowedList.Rebuilt.{contains-rebuild}
use dhcpserver.Dhcp.ClientName.{
  from_options, find_option, find_option_fuel, host_name_option, sanitize, until_nul, clean, keeps,
  char_len, trim_left,
}
use dhcpserver.Dhcp.ClientName.Clean.{IsName, from_options-IsName}
use dhcpserver.Dhcp.Examples.{alice, bob}

is_declined-add_example : is_declined (add Declined.init 7 1000).0 7 3600999 ≡ ltb 3599999 3600000
is_declined-add_example =
    is_declined-add Declined.init 7 1000 3600999 init-IsValid (omega arith) (omega arith)

refused_runs : (add Declined.init 7 1000).1 ≡ true
unfolding add Declined.init
refused_runs = refl

-- Thirty-two refusals fill the table; the next overwrites the first.
fill_up : ℕ → Declined.Declined
fill_up zero = Declined.init
fill_up (suc n) = (add (fill_up n) (suc n) n).0

full_runs : ((add (fill_up 32) 99 40).1 ≡ false) × (length (fill_up 32).entries ≡ 32)
unfolding fill_up add Declined.init oldest_index
full_runs = (refl, refl)

add_evicts_oldest_example : AllUsed (expire (fill_up 32) 40).entries
add_evicts_oldest_example =
    (add_evicts_oldest (fill_up 32) 99 40 (omega (arith, full_runs.1)) full_runs.0).0

alice-IsMac : IsMac alice
alice-IsMac = record { size = refl; bytes = omega arith }

abbrev computers : List AllowedComputer
computers =
    record { mac = format_mac alice; name = []; enabled = true }
    ∷ record { mac = format_mac bob; name = []; enabled = false }
    ∷ []

init_available : AllowedList.init.available ≡ true
unfolding AllowedList.init
init_available = refl

contains-rebuild_example :
    (contains (rebuild AllowedList.init computers).0 bob ≡ lists computers bob)
    × ((rebuild AllowedList.init computers).1 ≡ true)
contains-rebuild_example =
    contains-rebuild AllowedList.init computers bob init_available (omega arith)

rebuilt_runs :
    (contains (rebuild AllowedList.init computers).0 alice ≡ true)
    × (contains (rebuild AllowedList.init computers).0 bob ≡ false)
unfolding contains rebuild AllowedList.init AllowedList.fill AllowedList.insert_entry
    AllowedList.free_slot AllowedList.free_from AllowedList.contains_from AllowedList.hash_mac
    parse_mac format_mac bytes_eq
rebuilt_runs = (refl, refl)

-- Option 12 with the text " h|i", behind a pad.
abbrev name_options : List ℕ
name_options = 0 ∷ 12 ∷ 4 ∷ b' ' ∷ b'h' ∷ b'|' ∷ b'i' ∷ 255 ∷ []

from_options-IsName_example : IsName (from_options name_options)
from_options-IsName_example = from_options-IsName name_options

named_runs : from_options name_options ≡ (b'h' ∷ b'i' ∷ [])
unfolding from_options host_name_option find_option find_option_fuel sanitize until_nul clean keeps
    char_len trim_left
named_runs = refl

-- An overlong form, a surrogate and a control character of two bytes are kept.
ill_formed_kept :
    (sanitize (224 ∷ 128 ∷ 128 ∷ []) ≡ (224 ∷ 128 ∷ 128 ∷ []))
    × (sanitize (237 ∷ 160 ∷ 128 ∷ []) ≡ (237 ∷ 160 ∷ 128 ∷ []))
    × (sanitize (194 ∷ 133 ∷ []) ≡ (194 ∷ 133 ∷ []))
unfolding sanitize until_nul clean keeps char_len trim_left
ill_formed_kept = (refl, refl, refl)

-- The list as text: "01:..|ab|1" and a switched-off entry without a name.
abbrev named_computers : List AllowedComputer
named_computers =
    record { mac = format_mac alice; name = b'a' ∷ b' ' ∷ b'b' ∷ []; enabled = true }
    ∷ record { mac = format_mac bob; name = []; enabled = false }
    ∷ []

bob-IsMac : IsMac bob
bob-IsMac = record { size = refl; bytes = omega arith }

named_computers-AllStored : AllStored named_computers
unfolding AllStored sanitize_name storage_field_text trim trim_begin trim_end
named_computers-AllStored = (
  record { bytes = alice; address = alice-IsMac; printed = refl; clean = refl },
  (record { bytes = bob; address = bob-IsMac; printed = refl; clean = refl }, tt),
)

parse-serialize_example : parse (serialize named_computers) ≡ named_computers
parse-serialize_example = parse-serialize named_computers named_computers-AllStored (omega arith)

serialized_bytes_bound_example : serialized_bytes named_computers ≤ max_bytes
serialized_bytes_bound_example = serialized_bytes_bound named_computers

-- The cut of a name leaves the space at its end, which the next cleaning removes.
abbrev long_name : List ℕ
long_name = replicate 19 b'n' ++ (b' ' ∷ b'n' ∷ [])

cut_name_not_stable :
    (length (sanitize_name long_name) ≡ 20)
    × (length (sanitize_name (sanitize_name long_name)) ≡ 19)
unfolding sanitize_name storage_field_text trim trim_begin trim_end
cut_name_not_stable = (refl, refl)
