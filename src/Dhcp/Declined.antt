-- ===== src/Dhcp/Declined.antt =====
-- src/dhcp/DeclinedAddresses.h: the table of refused addresses and their hold-down.
pub mod Entries
pub mod Holding
pub mod Eviction
use dhcpserver.Base.{
  ℕ, ◌+◌, ◌-◌, ◌%◌, ◌^◌, Bool, true, false, not, ◌&&◌, ◌||◌, List, [], ◌∷◌, Option, none, some, ltb,
  leb, ◌==◌, if◌then◌else◌, replicate, set,
}

-- kDeclineHoldMs and kCapacity.
abbrev pub decline_hold_ms : ℕ
decline_hold_ms = 3600000

abbrev pub capacity : ℕ
capacity = 32

pub record Entry : Type 0 where
  pub ip : ℕ
  pub since_ms : ℕ
  pub used : Bool

pub record Declined : Type 0 where
  pub entries : List Entry

-- `nowMs - sinceMs` on uint64_t.
abbrev pub elapsed : ℕ → Entry → ℕ
elapsed now e = (now + 2 ^ 64 - e.since_ms) % 2 ^ 64

abbrev pub empty_entry : Entry
empty_entry = record { ip = 0; since_ms = 0; used = false }

-- The member initialisers.
unfoldable pub init : Declined
init = record { entries = replicate capacity empty_entry }

unfoldable pub expire_all : ℕ → List Entry → List Entry
expire_all now [] = []
expire_all now (e ∷ es) =
    (if e.used && leb decline_hold_ms (elapsed now e) then record e { used = false } else e)
    ∷ expire_all now es

unfoldable pub expire : Declined → ℕ → Declined
unfolding expire_all
expire d now = record { entries = expire_all now d.entries }

-- The first loop of `add`: refresh the entry that holds the address already.
unfoldable pub refresh : ℕ → ℕ → List Entry → Option (List Entry)
refresh ip now [] = none
refresh ip now (e ∷ es) =
    let rest = refresh ip now es in
    if e.used && e.ip == ip
    then some (record e { since_ms = now } ∷ es)
    else elim rest [ none ↦ none | some es' ↦ some (e ∷ es') ]

-- The second loop of `add`: take the first unused entry.
unfoldable pub fill : ℕ → ℕ → List Entry → Option (List Entry)
fill ip now [] = none
fill ip now (e ∷ es) =
    let rest = fill ip now es in
    if e.used
    then elim rest [ none ↦ none | some es' ↦ some (e ∷ es') ]
    else some (record { ip = ip; since_ms = now; used = true } ∷ es)

-- The third loop: the index of the first entry with the least `sinceMs`.
unfoldable pub oldest : List Entry → ℕ → ℕ → ℕ → ℕ
oldest [] i best best_ms = best
oldest (e ∷ es) i best best_ms =
    oldest es (i + 1) (if ltb e.since_ms best_ms then i else best)
      (if ltb e.since_ms best_ms then e.since_ms else best_ms)

unfoldable pub oldest_index : List Entry → ℕ
unfolding oldest
oldest_index [] = 0
oldest_index (e ∷ es) = oldest es 1 0 e.since_ms

unfoldable pub overwrite_oldest : ℕ → ℕ → List Entry → List Entry
unfolding oldest_index
overwrite_oldest ip now es =
    set es (oldest_index es) (record { ip = ip; since_ms = now; used = true })

unfoldable pub add : Declined → ℕ → ℕ → Declined × Bool
unfolding expire refresh fill overwrite_oldest
add d ip now =
    let es = (expire d now).entries in
    elim (refresh ip now es) [
      | some es' ↦ (record { entries = es' }, true)
      | none ↦ elim (fill ip now es) [
        | some es' ↦ (record { entries = es' }, true)
        | none ↦ (record { entries = overwrite_oldest ip now es }, false)
      ]
    ]

unfoldable pub held_in : List Entry → ℕ → ℕ → Bool
held_in [] ip now = false
held_in (e ∷ es) ip now =
    if not e.used || not (e.ip == ip)
    then held_in es ip now
    else ltb (elapsed now e) decline_hold_ms

unfoldable pub is_declined : Declined → ℕ → ℕ → Bool
unfolding held_in
is_declined d ip now = held_in d.entries ip now

unfoldable pub count_in : List Entry → ℕ → ℕ
count_in [] now = 0
count_in (e ∷ es) now =
    count_in es now + (if e.used && ltb (elapsed now e) decline_hold_ms then 1 else 0)

unfoldable pub count : Declined → ℕ → ℕ
unfolding count_in
count d now = count_in d.entries now

unfoldable pub clear_all : List Entry → List Entry
clear_all [] = []
clear_all (e ∷ es) = record e { used = false } ∷ clear_all es

unfoldable pub clear : Declined → Declined
unfolding clear_all
clear d = record { entries = clear_all d.entries }
