-- ===== src/Dhcp/Server/Select.antt =====
-- selectIp of src/dhcp/DhcpServer.cpp.
use dhcpserver.Base.{
  ℕ, zero, suc, ◌+◌, ◌%◌, Bool, not, ◌&&◌, ◌||◌, List, [], ◌∷◌, Option, none, some, leb, ◌==◌,
  if◌then◌else◌, bytes_eq, ntohl, u32_mod, is_some,
}
use dhcpserver.Dhcp.Leases.{Leases, find}
use dhcpserver.Dhcp.Server.{Server, StaticEntry, Env, scanned, probe_ip, address_declined}

-- The first loop: an enabled binding of the client whose address nobody holds.
unfoldable pub free_binding : List StaticEntry → Leases → List ℕ → Option ℕ
free_binding [] leases mac = none
free_binding (e ∷ es) leases mac =
    if e.enabled && (bytes_eq e.mac mac && not (is_some (find e.ip leases)))
    then some e.ip
    else free_binding es leases mac

-- The second loop: the first address that the table gives the client.
unfoldable pub own_lease : Leases → List ℕ → Option ℕ
own_lease [] mac = none
own_lease ((ip, lease) ∷ rest) mac = if bytes_eq lease.mac mac then some ip else own_lease rest mac

-- htonl(ntohl(ip) + 1)
unfoldable pub next_ip : ℕ → ℕ
next_ip ip = ntohl ((ntohl ip + 1) % u32_mod)

-- The body of the third loop goes on to the next address.
unfoldable pub passed_over : Env → Server → ℕ → Bool
passed_over env s ip =
    ip == s.server_ip
    || (is_some (find ip s.leases)
        || (address_declined env (scanned ip) s ip || is_some (probe_ip env (scanned ip) ip)))

-- The third loop on fuel, none when the fuel runs out; 0 stands for "no available IP". The loop
-- compares addresses in network byte order, as the source does.
unfoldable pub scan_range : ℕ → Env → Server → ℕ → Option ℕ
scan_range zero env s ip = none
scan_range (suc fuel) env s ip =
    let later = scan_range fuel env s (next_ip ip) in
    if not (leb ip s.range_end) then some 0 else if passed_over env s ip then later else some ip

-- selectIp. The fuel counts the addresses that the third loop may try.
unfoldable pub select_ip : ℕ → Env → Server → List ℕ → Option ℕ
select_ip fuel env s mac = elim (free_binding s.static_bindings s.leases mac) [
  | some ip ↦ some ip
  | none ↦ elim (own_lease s.leases mac) [
    | some ip ↦ some ip
    | none ↦ scan_range fuel env s s.range_start
  ]
]
