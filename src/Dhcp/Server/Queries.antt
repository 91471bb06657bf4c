-- ===== src/Dhcp/Server/Queries.antt =====
-- The queries of src/dhcp/DhcpServer.cpp that the name lookup, the web pages and the access filters
-- of the other services make. The ARP cache of lwIP (arpWalk) is an argument: the address of a
-- hardware address, or the hardware address of an address.
use dhcpserver.Base.{
  ℕ, Bool, true, not, ◌&&◌, List, [], ◌∷◌, Option, none, some, leb, ◌==◌, if◌then◌else◌, length,
  bytes_eq,
}
use dhcpserver.Dhcp.AllowedList.{is_address_allowed}
use dhcpserver.Dhcp.Leases.{Leases, Lease, find}
use dhcpserver.Dhcp.Server.{Server, StaticEntry}

unfoldable pub hostname_in : ℕ → Leases → List ℕ → List ℕ
hostname_in now [] mac = []
hostname_in now ((ip, lease) ∷ rest) mac =
    let later = hostname_in now rest mac in
    if leb lease.expiry now
    then later
    else if not (bytes_eq lease.mac mac)
    then later
    else elim lease.hostname [ [] ↦ later | c ∷ cs ↦ c ∷ cs ]

-- clientHostnameByMac, at the time `now`.
unfoldable pub client_hostname_by_mac : Server → ℕ → List ℕ → List ℕ
client_hostname_by_mac s now mac = hostname_in now s.leases mac

unfoldable pub address_in : ℕ → Leases → List ℕ → Option ℕ
address_in now [] mac = none
address_in now ((ip, lease) ∷ rest) mac =
    let later = address_in now rest mac in
    if leb lease.expiry now then later else if bytes_eq lease.mac mac then some ip else later

-- clientIpByMac
unfoldable pub client_ip_by_mac : (List ℕ → Option ℕ) → Server → ℕ → List ℕ → Option ℕ
client_ip_by_mac arp s now mac = elim (address_in now s.leases mac) [
  | some ip ↦ some ip
  | none ↦ arp mac
]

-- nameServerIp
unfoldable pub name_server_ip : Server → ℕ
name_server_ip s =
    if s.dns_manual && not (s.dns_manual_ip == 0) then s.dns_manual_ip else s.server_gateway

-- leaseCount and getLeases
unfoldable pub lease_count : Server → ℕ
lease_count s = length s.leases

unfoldable pub lease_values : Leases → List Lease
lease_values [] = []
lease_values ((ip, lease) ∷ rest) = lease ∷ lease_values rest

unfoldable pub get_leases : Server → List Lease
get_leases s = lease_values s.leases

-- getMacByIp
unfoldable pub get_mac_by_ip : Server → ℕ → Option (List ℕ)
get_mac_by_ip s ip = elim (find ip s.leases) [ none ↦ none | some lease ↦ some lease.mac ]

-- The hardware address of the first enabled binding of an address.
unfoldable pub binding_owner : List StaticEntry → ℕ → Option (List ℕ)
binding_owner [] ip = none
binding_owner (e ∷ es) ip = if e.enabled && e.ip == ip then some e.mac else binding_owner es ip

-- Whom isClientAddressAllowed takes for the owner of an address.
unfoldable pub owner_of : (ℕ → Option (List ℕ)) → Server → ℕ → Option (List ℕ)
owner_of arp s ip = elim (get_mac_by_ip s ip) [
  | some mac ↦ some mac
  | none ↦ elim (arp ip) [ some mac ↦ some mac | none ↦ binding_owner s.static_bindings ip ]
]

-- isClientAddressAllowed
unfoldable pub is_client_address_allowed : (ℕ → Option (List ℕ)) → Server → ℕ → Bool → Bool
is_client_address_allowed arp s ip allow_only =
    if not allow_only
    then true
    else is_address_allowed allow_only (owner_of arp s ip) s.allowed_list s.allowed_static_refs
