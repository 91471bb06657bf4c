-- ===== src/Dhcp/Examples.antt =====
-- Concrete servers, packets and clocks, and the theorems of the DHCP server at them.
pub mod Tables
pub mod Packets
pub mod Ranges
use dhcpserver.Base.{
  ℕ, ◌+◌, ◌*◌, Bool, true, false, List, [], ◌∷◌, Option, none, some, word, if◌then◌else◌, ◌==◌,
}
use dhcpserver.Dhcp.Declined
use dhcpserver.Dhcp.AllowedList
use dhcpserver.Dhcp.Leases.{Lease, Leases}
use dhcpserver.Dhcp.Server.{Server, Env}
use dhcpserver.Dhcp.Server.Range.{host}

-- 192.168.1.0 and 192.168.2.0
abbrev pub lan : ℕ
lan = 108736

abbrev pub lan2 : ℕ
lan2 = 174272

abbrev pub alice : List ℕ
alice = 2 ∷ 0 ∷ 0 ∷ 0 ∷ 0 ∷ 1 ∷ []

abbrev pub bob : List ℕ
bob = 2 ∷ 0 ∷ 0 ∷ 0 ∷ 0 ∷ 2 ∷ []

-- Bob's lease of .101, which ends at the second given.
abbrev pub bobs : ℕ → Lease
bobs expiry = record { mac = bob; ip = host lan 101; expiry = expiry; hostname = [] }

-- 192.168.1.1 with a range, and one lease of Bob's.
abbrev pub serving : ℕ → ℕ → ℕ → Server
serving start end expiry = record {
  server_ip = host lan 1;
  server_netmask = 16777215;
  server_gateway = host lan 254;
  range_start = start;
  range_end = end;
  lease_time_sec = 86400;
  dns_manual = false;
  dns_manual_ip = 0;
  dns_server_running = true;
  leases = (host lan 101, bobs expiry) ∷ [];
  declined = Declined.init;
  max_lease_entries_effective = 8;
  lease_limit_rejects = 0;
  static_bindings = [];
  allowed_list = AllowedList.init;
  allowed_static_refs = [];
  allow_only = false;
}

abbrev pub office : Server
office = serving (host lan 100) (host lan 102) 5000

-- A silent network, a thousand seconds after the start.
abbrev pub quiet : Env
quiet = record {
  timer_us = λ site. 1000000000;
  arp = λ site ip. none;
  icmp = λ site ip. false;
  arp_again = λ site ip. none;
}

-- A network in which every address but one answers an echo.
abbrev pub busy : ℕ → Env
busy free = record {
  timer_us = λ site. 1000000000;
  arp = λ site ip. none;
  icmp = λ site ip. if ip == free then false else true;
  arp_again = λ site ip. none;
}
