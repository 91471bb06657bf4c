-- ===== src/Dhcp/Server.antt =====
-- src/dhcp/DhcpServer.h and DhcpServer.cpp: the state of the server, its environment, and the
-- small queries over the static bindings and the range.
pub mod Packet
pub mod Select
pub mod Handler
pub mod Requests
pub mod Acks
pub mod Isolation
pub mod Range
pub mod Faults
pub mod Unchecked
pub mod Replies
pub mod Refusals
pub mod Reads
pub mod Queries
pub mod Filter
pub mod Invariant
use dhcpserver.Base.{
  ℕ, ◌+◌, ◌-◌, ◌*◌, ◌/◌, ◌%◌, ◌^◌, Bool, true, false, not, ◌&&◌, ◌||◌, List, [], ◌∷◌, map, Option,
  none, some, ltb, leb, ◌==◌, if◌then◌else◌, length, bytes_eq, ntohl, u32_mod, is_some,
}
use dhcpserver.Dhcp.Declined
use dhcpserver.Dhcp.Declined.{Declined}
use dhcpserver.Dhcp.AllowedList.{AllowedList, StaticRef}
use dhcpserver.Dhcp.Leases.{Leases, Lease, find, insert, erase, remove_expired}

-- The places of the handler that read the clock or probe an address. A probe takes seconds, so
-- each place has a reading of its own, and nothing is assumed of one reading against another.
pub data Site : Type 0 where
  requested : Site
  scanned : ℕ → Site
  existing purge reserve add_lease request decline loop : Site

-- What the code asks of ESP-IDF and lwIP: `esp_timer_get_time` in microseconds, the owner of an
-- address in the ARP cache at the first and at the second probe of a place, and the ICMP echo.
pub record Env : Type 0 where
  pub timer_us : Site → ℕ
  pub arp : Site → ℕ → Option (List ℕ)
  pub icmp : Site → ℕ → Bool
  pub arp_again : Site → ℕ → Option (List ℕ)

abbrev pub no_mac : List ℕ
no_mac = 0 ∷ 0 ∷ 0 ∷ 0 ∷ 0 ∷ 0 ∷ []

-- probeIp: the owner's MAC when the address is in use (all zero when it stays unknown).
unfoldable pub probe_ip : Env → Site → ℕ → Option (List ℕ)
probe_ip env site ip = elim (env.arp site ip) [
  | some mac ↦ some mac
  | none ↦
      if env.icmp site ip
      then elim (env.arp_again site ip) [ some mac ↦ some mac | none ↦ some no_mac ]
      else none
]

-- getCurrentTimeSec, a uint32_t, and getCurrentTimeMs.
abbrev pub time_sec : Env → Site → ℕ
time_sec env site = env.timer_us site / 1000000 % u32_mod

abbrev pub time_ms : Env → Site → ℕ
time_ms env site = env.timer_us site / 1000

-- DhcpServer::StaticEntry
pub record StaticEntry : Type 0 where
  pub mac : List ℕ
  pub ip : ℕ
  pub gateway_ip : ℕ
  pub use_gateway : Bool
  pub enabled : Bool
  pub use_dns : Bool

-- The members that the packet path reads. `dns_manual` is `dnsMode_ == "manual"`. Addresses are
-- uint32_t values in network byte order.
pub record Server : Type 0 where
  pub server_ip : ℕ
  pub server_netmask : ℕ
  pub server_gateway : ℕ
  pub range_start : ℕ
  pub range_end : ℕ
  pub lease_time_sec : ℕ
  pub dns_manual : Bool
  pub dns_manual_ip : ℕ
  pub dns_server_running : Bool
  pub leases : Leases
  pub declined : Declined
  pub max_lease_entries_effective : ℕ
  pub lease_limit_rejects : ℕ
  pub static_bindings : List StaticEntry
  pub allowed_list : AllowedList
  pub allowed_static_refs : List StaticRef
  pub allow_only : Bool

-- isIpInRange
unfoldable pub is_ip_in_range : Server → ℕ → Bool
is_ip_in_range s ip =
    not (ip == s.server_ip)
    && leb (ntohl s.range_start) (ntohl ip)
    && leb (ntohl ip) (ntohl s.range_end)

unfoldable pub bound_to : List StaticEntry → List ℕ → ℕ → Bool
bound_to [] mac ip = false
bound_to (e ∷ es) mac ip = (e.enabled && (e.ip == ip && bytes_eq e.mac mac)) || bound_to es mac ip

-- isStaticBindingForMac
unfoldable pub is_static_binding_for_mac : Server → List ℕ → ℕ → Bool
is_static_binding_for_mac s mac ip = bound_to s.static_bindings mac ip

-- The first enabled binding of the address, as the loops of resolveDnsServer and resolveRouter
-- find it.
unfoldable pub first_binding : List StaticEntry → List ℕ → Option StaticEntry
first_binding [] mac = none
first_binding (e ∷ es) mac =
    if e.enabled && bytes_eq e.mac mac then some e else first_binding es mac

unfoldable pub general_dns : Server → ℕ
general_dns s =
    if s.dns_manual
    then (if not (s.dns_manual_ip == 0) && not (s.dns_manual_ip == s.server_ip)
        then s.dns_manual_ip
        else s.server_gateway)
    else if s.dns_server_running
    then s.server_ip
    else s.server_gateway

-- resolveDnsServer, for a client's address.
unfoldable pub resolve_dns_server : Server → List ℕ → ℕ
resolve_dns_server s mac = elim (first_binding s.static_bindings mac) [
  | none ↦ general_dns s
  | some e ↦
      if e.use_dns
      then general_dns s
      else if s.dns_manual_ip == 0
      then s.server_gateway
      else s.dns_manual_ip
]

-- resolveRouter: the address and whether the option is sent.
unfoldable pub resolve_router : Server → List ℕ → ℕ × Bool
resolve_router s mac = elim (first_binding s.static_bindings mac) [
  | none ↦ (s.server_gateway, true)
  | some e ↦ if e.use_gateway then (s.server_gateway, true) else (0, false)
]

-- addressDeclined
unfoldable pub address_declined : Env → Site → Server → ℕ → Bool
address_declined env site s ip = Declined.is_declined s.declined ip (time_ms env site)

-- refreshAllowedStaticRefs
unfoldable pub refresh_allowed_static_refs : Server → Server
refresh_allowed_static_refs s = record s {
  allowed_static_refs = map (λ e. record { mac = e.mac; enabled = e.enabled }) s.static_bindings;
}

-- The three members of core::DhcpConfig that applyLeaseLimit reads, the addresses parsed.
pub record DhcpConfig : Type 0 where
  pub start_ip : ℕ
  pub end_ip : ℕ
  pub max_lease_entries : ℕ

abbrev pub min_lease_entries : ℕ
min_lease_entries = 8

abbrev pub max_lease_limit : ℕ
max_lease_limit = 512

-- The automatic limit: twice the size of the pool, in uint32_t.
unfoldable pub auto_limit : DhcpConfig → ℕ
auto_limit cfg =
    (if ltb cfg.start_ip cfg.end_ip
      then (ntohl cfg.end_ip + u32_mod - ntohl cfg.start_ip + 1) % u32_mod
      else 0)
    * 2
    % u32_mod

unfoldable pub clamp_limit : ℕ → ℕ
clamp_limit limit =
    let limit' = if ltb limit min_lease_entries then min_lease_entries else limit in
    if ltb max_lease_limit limit' then max_lease_limit else limit'

-- applyLeaseLimit
unfoldable pub apply_lease_limit : DhcpConfig → Server → Server
apply_lease_limit cfg s = record s {
  max_lease_entries_effective =
      clamp_limit (if cfg.max_lease_entries == 0 then auto_limit cfg else cfg.max_lease_entries);
}

-- canAddLeaseEntry: the server after it, and its answer.
unfoldable pub can_add_lease_entry : Env → Server → ℕ → Server × Bool
can_add_lease_entry env s ip =
    let full = leb s.max_lease_entries_effective (length s.leases) in
    let purged =
      if full then record s { leases = remove_expired (time_sec env purge) s.leases } else s in
    if is_some (find ip s.leases)
    then (s, true)
    else if ltb (length purged.leases) purged.max_lease_entries_effective
    then (purged, true)
    else (record purged { lease_limit_rejects = (purged.lease_limit_rejects + 1) % u32_mod }, false)

-- addLease
unfoldable pub add_lease_entry : Env → Server → List ℕ → ℕ → List ℕ → Server
add_lease_entry env s mac ip hostname = record s {
  leases =
      insert ip
        (record {
          mac = mac;
          ip = ip;
          expiry = (time_sec env add_lease + s.lease_time_sec) % u32_mod;
          hostname = hostname;
        })
        s.leases;
}

abbrev pub offer_hold_sec : ℕ
offer_hold_sec = 60

abbrev pub named : Lease → List ℕ → Lease
named l [] = l
named l (c ∷ cs) = record l { hostname = c ∷ cs }

-- The part of reserveOffer after the test of an existing lease.
unfoldable pub reserve_entry : Env → Server → List ℕ → ℕ → List ℕ → Server × Bool
reserve_entry env s mac ip hostname =
    let (s', room) = can_add_lease_entry env s ip in
    if room
    then (
      record s' {
        leases =
            insert ip
              (record {
                mac = mac;
                ip = ip;
                expiry = (time_sec env reserve + offer_hold_sec) % u32_mod;
                hostname = hostname;
              })
              s'.leases;
      },
      true,
    )
    else (s', false)

-- reserveOffer
unfoldable pub reserve_offer : Env → Server → List ℕ → ℕ → List ℕ → Server × Bool
reserve_offer env s mac ip hostname =
    let fresh = reserve_entry env s mac ip hostname in
    elim (find ip s.leases) [
      | none ↦ fresh
      | some l ↦
          if ltb ((time_sec env existing + offer_hold_sec) % u32_mod) l.expiry
          then (record s { leases = insert ip (named l hostname) s.leases }, true)
          else fresh
    ]
