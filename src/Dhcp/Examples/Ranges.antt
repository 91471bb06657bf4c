-- ===== src/Dhcp/Examples/Ranges.antt =====
-- The walk over the range at concrete ranges.
use dhcpserver.Base.{
  ℕ, ◌+◌, ◌≡◌, refl, ◌≢◌, ◌<◌, ◌≤◌, ◌⊎◌, true, false, none, some, arith, ntohl, bytes_eq,
}
use dhcpserver.Dhcp.Declined
use dhcpserver.Dhcp.Leases.{find}
use dhcpserver.Dhcp.Server.{
  Server, DhcpConfig, apply_lease_limit, is_ip_in_range, address_declined, probe_ip,
}
use dhcpserver.Dhcp.Server.Select.{
  select_ip, free_binding, own_lease, scan_range, passed_over, next_ip,
}
use dhcpserver.Dhcp.Server.Range.{host, IsUnclaimed, select_ip-in_network}
use dhcpserver.Dhcp.Server.Faults.{
  select_ip_crossing, select_ip_escapes, apply_lease_limit_crossing,
}
use dhcpserver.Dhcp.Examples.{lan, lan2, alice, office, serving, quiet, busy}

office_facts :
    (free_binding office.static_bindings office.leases alice ≡ none)
    × (own_lease office.leases alice ≡ none)
unfolding free_binding own_lease bytes_eq
office_facts = (refl, refl)

-- .100 answers, .101 is leased, .102 is free.
select_runs : select_ip 300 (busy (host lan 102)) office alice ≡ some (host lan 102)
unfolding select_ip free_binding own_lease bytes_eq scan_range passed_over find address_declined
    Declined.init Declined.is_declined Declined.held_in probe_ip next_ip ntohl
select_runs = refl

select_ip-in_network_example :
    (r : ℕ) × (select_ip 300 quiet office alice ≡ some r)
    × (((is_ip_in_range office r ≡ true)
          × IsUnclaimed quiet office r
          × ((o : ℕ) → 100 ≤ o → host lan o < r → passed_over quiet office (host lan o) ≡ true))
        ⊎ ((r ≡ 0) × ((o : ℕ) → 100 ≤ o → o ≤ 102 → passed_over quiet office (host lan o) ≡ true)))
select_ip-in_network_example =
    select_ip-in_network 300 quiet office alice lan 100 102 (omega arith) refl refl (omega arith)
      (omega arith) (omega arith) office_facts.0 office_facts.1

-- 192.168.1.200 to 192.168.2.50
abbrev crossing : Server
crossing = serving (host lan 200) (host lan2 50) 5000

select_ip_crossing_example : select_ip 300 quiet crossing alice ≡ some 0
select_ip_crossing_example =
    select_ip_crossing 300 quiet crossing alice lan lan2 200 50 (omega arith) refl refl
      (omega arith) (omega arith) office_facts.0 office_facts.1

abbrev crossing_config : DhcpConfig
crossing_config = record { start_ip = host lan 200; end_ip = host lan2 50; max_lease_entries = 0 }

apply_lease_limit_crossing_example :
    (apply_lease_limit crossing_config office).max_lease_entries_effective ≡ 8
apply_lease_limit_crossing_example =
    apply_lease_limit_crossing crossing_config office lan lan2 200 50 (omega arith) refl refl
      (omega arith) refl

-- 192.168.1.254 to 192.168.1.255, where every address but 192.168.2.0 answers.
abbrev last_two : Server
last_two = serving (host lan 254) (host lan 255) 5000

busy_passes : (free ip : ℕ) (s : Server) → ip ≢ free → passed_over (busy free) s ip ≡ true
unfolding passed_over probe_ip
busy_passes free ip s n = ground arith

escape_facts :
    (next_ip last_two.range_end ≡ host lan2 0)
    × (passed_over (busy (host lan2 0)) last_two (next_ip last_two.range_end) ≡ false)
    × (ntohl lan + 256 < 4294967296)
unfolding next_ip ntohl passed_over find address_declined Declined.init Declined.is_declined
    Declined.held_in probe_ip
escape_facts = (refl, refl, omega arith)

select_ip_escapes_example :
    (select_ip 300 (busy (host lan2 0)) last_two alice ≡ some (next_ip last_two.range_end))
    × (is_ip_in_range last_two (next_ip last_two.range_end) ≡ false)
select_ip_escapes_example =
    select_ip_escapes 300 (busy (host lan2 0)) last_two alice lan 254 (omega arith) escape_facts.2
      refl refl (omega arith) (omega arith) office_facts.0 office_facts.1
      (λ o l u. busy_passes (host lan2 0) (host lan o) last_two (omega arith)) escape_facts.1
