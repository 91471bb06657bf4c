-- ===== src/Dhcp/Declined/Entries.antt =====
-- The loops of the table: what each does to the entries, for the hold-down of one address.
use dhcpserver.Base.{
  ℕ, zero, suc, ◌+◌, ◌-◌, ◌%◌, ◌^◌, ◌<◌, ◌≡◌, refl, ◌≢◌, inl, inr, Bool, true, false, ◌&&◌, List,
  [], ◌∷◌, Option, none, some, ltb, leb, ◌==◌, if◌then◌else◌, set, length, Option-cases, arith,
}
use dhcpserver.Dhcp.Declined.{
  Entry, decline_hold_ms, expire_all, refresh, fill, oldest, oldest_index, held_in,
}

-- When the address was last refused, if an entry in use holds it.
pub since_of : List Entry → ℕ → Option ℕ
since_of [] ip = none
since_of (e ∷ es) ip = if e.used && e.ip == ip then some e.since_ms else since_of es ip

abbrev pub in_force : ℕ → ℕ → Bool
in_force now since = ltb ((now + 2 ^ 64 - since) % 2 ^ 64) decline_hold_ms

abbrev pub held_since : ℕ → Option ℕ → Bool
held_since now none = false
held_since now (some s) = in_force now s

pub held_in-since_of :
    (es : List Entry) (ip now : ℕ) → held_in es ip now ≡ held_since now (since_of es ip)
unfolding held_in since_of
held_in-since_of [] ip now = refl
held_in-since_of (e ∷ es) ip now = ground (arith, held_in-since_of es ip now)

-- No two entries in use hold one address.
abbrev pub Distinct : List Entry → Type 0
Distinct [] = Unit {0}
Distinct (e ∷ es) = (e.used ≡ true → since_of es e.ip ≡ none) × Distinct es

pub since_of-refresh :
    (ip now j : ℕ) (es fs : List Entry)
    → refresh ip now es ≡ some fs
    → since_of fs j ≡ (if ip == j then some now else since_of es j)
unfolding refresh since_of
since_of-refresh ip now j [] fs h = ground arith
since_of-refresh ip now j (e ∷ es) fs h = elim (Option-cases (refresh ip now es)) [
  | inl q ↦ ground (arith, q)
  | inr (gs, q) ↦ ground (arith, q, since_of-refresh ip now j es gs q)
]

pub since_of_refreshed :
    (ip now : ℕ) (es : List Entry) → refresh ip now es ≡ none → since_of es ip ≡ none
unfolding refresh since_of
since_of_refreshed ip now [] h = refl
since_of_refreshed ip now (e ∷ es) h = ground (arith, since_of_refreshed ip now es)

pub since_of-fill :
    (ip now j : ℕ) (es fs : List Entry)
    → since_of es ip ≡ none
    → fill ip now es ≡ some fs
    → since_of fs j ≡ (if ip == j then some now else since_of es j)
unfolding fill since_of
since_of-fill ip now j [] fs n h = ground arith
since_of-fill ip now j (e ∷ es) fs n h = elim (Option-cases (fill ip now es)) [
  | inl q ↦ ground (arith, q)
  | inr (gs, q) ↦ ground (arith, q, since_of-fill ip now j es gs)
]

-- What `expire` leaves of one address.
abbrev pub live_since : ℕ → Option ℕ → Option ℕ
live_since now none = none
live_since now (some s) = if leb decline_hold_ms ((now + 2 ^ 64 - s) % 2 ^ 64) then none else some s

pub since_of-expire_all :
    (now j : ℕ) (es : List Entry)
    → Distinct es
    → since_of (expire_all now es) j ≡ live_since now (since_of es j)
unfolding since_of expire_all
since_of-expire_all now j [] h = refl
since_of-expire_all now j (e ∷ es) h = ground (arith, since_of-expire_all now j es h.1)

pub expire_all-Distinct : (now : ℕ) (es : List Entry) → Distinct es → Distinct (expire_all now es)
unfolding expire_all
expire_all-Distinct now [] h = tt
expire_all-Distinct now (e ∷ es) h =
    ground (arith, expire_all-Distinct now es h.1, since_of-expire_all now e.ip es h.1)

pub refresh-Distinct :
    (ip now : ℕ) (es fs : List Entry) → Distinct es → refresh ip now es ≡ some fs → Distinct fs
unfolding refresh
refresh-Distinct ip now [] fs d h = ground arith
refresh-Distinct ip now (e ∷ es) fs d h = elim (Option-cases (refresh ip now es)) [
  | inl q ↦ ground (arith, q)
  | inr (gs, q) ↦
      ground (arith, q, refresh-Distinct ip now es gs, since_of-refresh ip now e.ip es gs)
]

pub fill-Distinct :
    (ip now : ℕ) (es fs : List Entry)
    → Distinct es
    → since_of es ip ≡ none
    → fill ip now es ≡ some fs
    → Distinct fs
unfolding fill since_of
fill-Distinct ip now [] fs d n h = ground arith
fill-Distinct ip now (e ∷ es) fs d n h = elim (Option-cases (fill ip now es)) [
  | inl q ↦ ground (arith, q)
  | inr (gs, q) ↦ ground (arith, q, fill-Distinct ip now es gs, since_of-fill ip now e.ip es gs)
]

pub since_of-set :
    (ip now : ℕ) (es : List Entry) (i : ℕ)
    → since_of es ip ≡ none
    → i < length es
    → since_of (set es i (record { ip = ip; since_ms = now; used = true })) ip ≡ some now
unfolding since_of
since_of-set ip now [] i n h = absurd (omega arith)
since_of-set ip now (e ∷ es) zero n h = ground arith
since_of-set ip now (e ∷ es) (suc i) n h = ground (arith, since_of-set ip now es i)

pub since_of-set_ne :
    (ip now j : ℕ) (es : List Entry) (i : ℕ)
    → ip ≢ j
    → since_of es j ≡ none
    → since_of (set es i (record { ip = ip; since_ms = now; used = true })) j ≡ none
unfolding since_of
since_of-set_ne ip now j [] i n h = refl
since_of-set_ne ip now j (e ∷ es) zero n h = ground arith
since_of-set_ne ip now j (e ∷ es) (suc i) n h = ground (arith, since_of-set_ne ip now j es i n)

pub set-Distinct :
    (ip now : ℕ) (es : List Entry) (i : ℕ)
    → Distinct es
    → since_of es ip ≡ none
    → Distinct (set es i (record { ip = ip; since_ms = now; used = true }))
unfolding since_of
set-Distinct ip now [] i d n = tt
set-Distinct ip now (e ∷ es) zero d n = ground arith
set-Distinct ip now (e ∷ es) (suc i) d n =
    ground (arith, set-Distinct ip now es i d.1, since_of-set_ne ip now e.ip es i)

pub oldest_bound :
    (es : List Entry) (i best m : ℕ)
    → best < i + length es
    → best < i
    → oldest es i best m < i + length es
unfolding oldest
oldest_bound [] i best m h k = omega arith
oldest_bound (e ∷ es) i best m h k =
    ground (arith, oldest_bound es (i + 1) i e.since_ms, oldest_bound es (i + 1) best m)

pub oldest_index_bound : (es : List Entry) → 0 < length es → oldest_index es < length es
unfolding oldest_index
oldest_index_bound [] h = absurd (omega arith)
oldest_index_bound (e ∷ es) h = omega (arith, oldest_bound es 1 0 e.since_ms)

pub length-expire_all : (now : ℕ) (es : List Entry) → length (expire_all now es) ≡ length es
unfolding expire_all
length-expire_all now [] = refl
length-expire_all now (e ∷ es) = omega (arith, length-expire_all now es)

pub length-refresh :
    (ip now : ℕ) (es fs : List Entry) → refresh ip now es ≡ some fs → length fs ≡ length es
unfolding refresh
length-refresh ip now [] fs h = ground arith
length-refresh ip now (e ∷ es) fs h = elim (Option-cases (refresh ip now es)) [
  | inl q ↦ ground (arith, q)
  | inr (gs, q) ↦ ground (arith, q, length-refresh ip now es gs)
]

pub length-fill :
    (ip now : ℕ) (es fs : List Entry) → fill ip now es ≡ some fs → length fs ≡ length es
unfolding fill
length-fill ip now [] fs h = ground arith
length-fill ip now (e ∷ es) fs h = elim (Option-cases (fill ip now es)) [
  | inl q ↦ ground (arith, q)
  | inr (gs, q) ↦ ground (arith, q, length-fill ip now es gs)
]
