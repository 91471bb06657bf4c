-- ===== src/Dhcp/Leases.antt =====
-- The lease table of src/dhcp/DhcpServer.h, a std::map from address to lease. The list is in the
-- order of the map's iteration: by key, a uint32_t in network byte order.
pub mod Laws
use dhcpserver.Base.{
  ℕ, ◌+◌, ◌≡◌, ◌<◌, Bool, true, false, List, [], ◌∷◌, Option, none, some, ltb, leb, ◌==◌,
  if◌then◌else◌,
}

-- DhcpLease; `expiry` is in seconds since boot.
pub record Lease : Type 0 where
  pub mac : List ℕ
  pub ip : ℕ
  pub expiry : ℕ
  pub hostname : List ℕ

abbrev pub Leases : Type 0
Leases = List (ℕ × Lease)

-- leases_.find(ip)
unfoldable pub find : ℕ → Leases → Option Lease
find ip [] = none
find ip ((key, lease) ∷ rest) = if key == ip then some lease else find ip rest

-- leases_[ip] = lease
unfoldable pub insert : ℕ → Lease → Leases → Leases
insert ip lease [] = (ip, lease) ∷ []
insert ip lease ((key, old) ∷ rest) =
    let later = (key, old) ∷ insert ip lease rest in
    if ltb ip key
    then (ip, lease) ∷ (key, old) ∷ rest
    else if key == ip
    then (ip, lease) ∷ rest
    else later

-- leases_.erase(it)
unfoldable pub erase : ℕ → Leases → Leases
erase ip [] = []
erase ip ((key, lease) ∷ rest) = if key == ip then rest else (key, lease) ∷ erase ip rest

-- removeExpiredLeases at the time `now`.
unfoldable pub remove_expired : ℕ → Leases → Leases
remove_expired now [] = []
remove_expired now ((key, lease) ∷ rest) =
    let kept = remove_expired now rest in if leb lease.expiry now then kept else (key, lease) ∷ kept
