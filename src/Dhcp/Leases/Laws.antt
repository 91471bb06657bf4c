-- ===== src/Dhcp/Leases/Laws.antt =====
-- The laws of the lease table that the server's proofs use.
use dhcpserver.Base.{
  ℕ, ◌+◌, ◌≤◌, ◌<◌, ◌≡◌, refl, true, [], ◌∷◌, Option, none, some, leb, ◌==◌, if◌then◌else◌, length,
  arith, is_some,
}
use dhcpserver.Dhcp.Leases.{Lease, Leases, find, insert, erase, remove_expired}

-- Keys rise along the list from above `k`, and each lease records its own key.
abbrev pub Above : ℕ → Leases → Type 0
Above k [] = Unit {0}
Above k ((key, lease) ∷ rest) = (k < key) × (lease.ip ≡ key) × Above key rest

-- A std::map: its keys are distinct and in order, and each lease records its own key.
abbrev pub IsTable : Leases → Type 0
IsTable [] = Unit {0}
IsTable ((key, lease) ∷ rest) = (lease.ip ≡ key) × Above key rest

Above-mono : (j k : ℕ) (m : Leases) → j ≤ k → Above k m → Above j m
Above-mono j k [] h a = tt
Above-mono j k ((key, lease) ∷ rest) h a = (omega arith, a.1, a.2)

Above-IsTable : (k : ℕ) (m : Leases) → Above k m → IsTable m
Above-IsTable k [] a = tt
Above-IsTable k ((key, lease) ∷ rest) a = (a.1, a.2)

find_below : (j k : ℕ) (m : Leases) → j ≤ k → Above k m → find j m ≡ none
unfolding find
find_below j k [] h a = refl
find_below j k ((key, lease) ∷ rest) h a = ground (arith, find_below j key rest)

pub find-insert :
    (ip j : ℕ) (l : Lease) (m : Leases)
    → find j (insert ip l m) ≡ (if ip == j then some l else find j m)
unfolding find insert
find-insert ip j l [] = refl
find-insert ip j l ((key, old) ∷ rest) = ground (arith, find-insert ip j l rest)

find-erase-Above :
    (ip j k : ℕ) (m : Leases)
    → Above k m
    → find j (erase ip m) ≡ (if ip == j then none else find j m)
unfolding find erase
find-erase-Above ip j k [] a = ground arith
find-erase-Above ip j k ((key, l) ∷ rest) a =
    ground (arith, find-erase-Above ip j key rest a.2, find_below j key rest)

pub find-erase :
    (ip j : ℕ) (m : Leases) → IsTable m → find j (erase ip m) ≡ (if ip == j then none else find j m)
unfolding find erase
find-erase ip j [] a = ground arith
find-erase ip j ((key, l) ∷ rest) a =
    ground (arith, find-erase-Above ip j key rest a.1, find_below j key rest)

abbrev pub unexpired : ℕ → Option Lease → Option Lease
unexpired now none = none
unexpired now (some l) = if leb l.expiry now then none else some l

Above-remove_expired : (now k : ℕ) (m : Leases) → Above k m → Above k (remove_expired now m)
unfolding remove_expired
Above-remove_expired now k [] a = tt
Above-remove_expired now k ((key, l) ∷ rest) a =
    ground
      (arith, Above-remove_expired now key rest a.2, Above-mono k key (remove_expired now rest))

pub remove_expired-IsTable : (now : ℕ) (m : Leases) → IsTable m → IsTable (remove_expired now m)
unfolding remove_expired
remove_expired-IsTable now [] a = tt
remove_expired-IsTable now ((key, l) ∷ rest) a =
    ground
      (arith, Above-remove_expired now key rest a.1, Above-IsTable key (remove_expired now rest))

find-remove_expired-Above :
    (now j k : ℕ) (m : Leases)
    → Above k m
    → find j (remove_expired now m) ≡ unexpired now (find j m)
unfolding find remove_expired
find-remove_expired-Above now j k [] a = refl
find-remove_expired-Above now j k ((key, l) ∷ rest) a =
    ground (arith, find-remove_expired-Above now j key rest a.2, find_below j key rest)

pub find-remove_expired :
    (now j : ℕ) (m : Leases) → IsTable m → find j (remove_expired now m) ≡ unexpired now (find j m)
unfolding find remove_expired
find-remove_expired now j [] a = refl
find-remove_expired now j ((key, l) ∷ rest) a =
    ground (arith, find-remove_expired-Above now j key rest a.1, find_below j key rest)

pub length-remove_expired-le : (now : ℕ) (m : Leases) → length (remove_expired now m) ≤ length m
unfolding remove_expired
length-remove_expired-le now [] = omega arith
length-remove_expired-le now ((key, l) ∷ rest) = ground (arith, length-remove_expired-le now rest)

pub length-erase-le : (ip : ℕ) (m : Leases) → length (erase ip m) ≤ length m
unfolding erase
length-erase-le ip [] = omega arith
length-erase-le ip ((key, l) ∷ rest) = ground (arith, length-erase-le ip rest)

pub length-insert-le : (ip : ℕ) (l : Lease) (m : Leases) → length (insert ip l m) ≤ length m + 1
unfolding insert
length-insert-le ip l [] = omega arith
length-insert-le ip l ((key, old) ∷ rest) = ground (arith, length-insert-le ip l rest)

length-insert-Above :
    (ip k : ℕ) (l : Lease) (m : Leases)
    → Above k m
    → is_some (find ip m) ≡ true
    → length (insert ip l m) ≡ length m
unfolding insert find
length-insert-Above ip k l [] a f = ground arith
length-insert-Above ip k l ((key, old) ∷ rest) a f =
    ground (arith, length-insert-Above ip key l rest a.2, find_below ip key rest)

-- An update does not grow the table.
pub length-insert_old :
    (ip : ℕ) (l : Lease) (m : Leases)
    → IsTable m
    → is_some (find ip m) ≡ true
    → length (insert ip l m) ≡ length m
unfolding insert find
length-insert_old ip l [] a f = ground arith
length-insert_old ip l ((key, old) ∷ rest) a f =
    ground (arith, length-insert-Above ip key l rest a.1, find_below ip key rest)

Above-insert :
    (ip k : ℕ) (l : Lease) (m : Leases) → k < ip → l.ip ≡ ip → Above k m → Above k (insert ip l m)
unfolding insert
Above-insert ip k l [] h e a = (h, e, tt)
Above-insert ip k l ((key, old) ∷ rest) h e a = ground (arith, Above-insert ip key l rest)

pub insert-IsTable :
    (ip : ℕ) (l : Lease) (m : Leases) → l.ip ≡ ip → IsTable m → IsTable (insert ip l m)
unfolding insert
insert-IsTable ip l [] e a = (e, tt)
insert-IsTable ip l ((key, old) ∷ rest) e a = ground (arith, Above-insert ip key l rest)

Above-erase : (ip k : ℕ) (m : Leases) → Above k m → Above k (erase ip m)
unfolding erase
Above-erase ip k [] a = tt
Above-erase ip k ((key, l) ∷ rest) a =
    ground (arith, Above-erase ip key rest a.2, Above-mono k key rest)

pub erase-IsTable : (ip : ℕ) (m : Leases) → IsTable m → IsTable (erase ip m)
unfolding erase
erase-IsTable ip [] a = tt
erase-IsTable ip ((key, l) ∷ rest) a =
    ground (arith, Above-erase ip key rest a.1, Above-IsTable key rest)

find-ip-Above : (ip k : ℕ) (m : Leases) (l : Lease) → Above k m → find ip m ≡ some l → l.ip ≡ ip
unfolding find
find-ip-Above ip k [] l a e = ground arith
find-ip-Above ip k ((key, old) ∷ rest) l a e = ground (arith, find-ip-Above ip key rest l a.2)

-- A lease is found under its own address.
pub find-ip : (ip : ℕ) (m : Leases) (l : Lease) → IsTable m → find ip m ≡ some l → l.ip ≡ ip
unfolding find
find-ip ip [] l a e = ground arith
find-ip ip ((key, old) ∷ rest) l a e = ground (arith, find-ip-Above ip key rest l a.1)

pub find-insert_self : (ip : ℕ) (l : Lease) (m : Leases) → find ip (insert ip l m) ≡ some l
find-insert_self ip l m = ground (arith, find-insert ip ip l m)
