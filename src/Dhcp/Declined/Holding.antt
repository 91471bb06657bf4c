-- ===== src/Dhcp/Declined/Holding.antt =====
-- What a refusal does to the hold-down of every address.
use dhcpserver.Base.{
  replicate, zero, suc, ℕ, ◌-◌, ◌^◌, ◌≤◌, ◌<◌, ◌≡◌, refl, ◌≢◌, inl, inr, Bool, true, false, List,
  Option, none, some, ltb, set, length, length-set, Option-cases, arith,
}
use dhcpserver.Dhcp.Declined.{
  empty_entry, init, Entry, Declined, decline_hold_ms, capacity, expire_all, refresh, fill,
  oldest_index, add, is_declined,
}
use dhcpserver.Dhcp.Declined.Entries.{
  Distinct, expire_all-Distinct, fill-Distinct, held_in-since_of, held_since, length-expire_all,
  length-fill, length-refresh, live_since, oldest_index_bound, refresh-Distinct, set-Distinct,
  since_of, since_of-expire_all, since_of-fill, since_of-refresh, since_of-set, since_of_refreshed,
}

-- The three ways through `add`, over the entries that `expire` left.
data Added (ip now : ℕ) (es : List Entry) : List Entry → Bool → Type 0 where
  refreshed : (fs : List Entry) → refresh ip now es ≡ some fs → Added ip now es fs true
  filled :
      (fs : List Entry)
      → refresh ip now es ≡ none
      → fill ip now es ≡ some fs
      → Added ip now es fs true
  evicted :
      refresh ip now es ≡ none
      → fill ip now es ≡ none
      → Added ip now es
          (set es (oldest_index es) (record { ip = ip; since_ms = now; used = true }))
          false

Added-add :
    (d : Declined) (ip now : ℕ)
    → Added ip now (expire_all now d.entries) (add d ip now).0.entries (add d ip now).1
unfolding add
Added-add d ip now = elim (Option-cases (refresh ip now (expire_all now d.entries))) [
  | inr (fs, q) ↦ rw (q, add) (refreshed fs q)
  | inl q ↦ elim (Option-cases (fill ip now (expire_all now d.entries))) [
    | inr (fs, r) ↦ rw (q, r, add) (filled fs q r)
    | inl r ↦ rw (q, r, add) (evicted q r)
  ]
]

module _ (ip now : ℕ) (es : List Entry) where
  Added-self :
      {fs : List Entry} {b : Bool}
      → Added ip now es fs b
      → 0 < length es
      → since_of fs ip ≡ some now
  Added-self (refreshed fs q) h = ground (arith, since_of-refresh ip now ip es fs q)
  Added-self (filled fs q r) h =
      ground (arith, since_of-fill ip now ip es fs (since_of_refreshed ip now es q) r)
  Added-self (evicted q r) h =
      since_of-set ip now es (oldest_index es) (since_of_refreshed ip now es q)
        (oldest_index_bound es h)

  Added-other :
      {fs : List Entry} {b : Bool} (j : ℕ)
      → Added ip now es fs b
      → b ≡ true
      → ip ≢ j
      → since_of fs j ≡ since_of es j
  Added-other j (refreshed fs q) t h = ground (arith, since_of-refresh ip now j es fs q)
  Added-other j (filled fs q r) t h =
      ground (arith, since_of-fill ip now j es fs (since_of_refreshed ip now es q) r)
  Added-other j (evicted q r) t h = ground arith

  Added-Distinct : {fs : List Entry} {b : Bool} → Distinct es → Added ip now es fs b → Distinct fs
  Added-Distinct d (refreshed fs q) = refresh-Distinct ip now es fs d q
  Added-Distinct d (filled fs q r) = fill-Distinct ip now es fs d (since_of_refreshed ip now es q) r
  Added-Distinct d (evicted q r) =
      set-Distinct ip now es (oldest_index es) d (since_of_refreshed ip now es q)

  Added-length : {fs : List Entry} {b : Bool} → Added ip now es fs b → length fs ≡ length es
  Added-length (refreshed fs q) = length-refresh ip now es fs q
  Added-length (filled fs q r) = length-fill ip now es fs r
  Added-length (evicted q r) = length-set es (oldest_index es) _

-- The array has its fixed size, and no two entries in use hold one address.
pub record IsValid (d : Declined) : Type 0 where
  pub size : length d.entries ≡ capacity
  pub distinct : Distinct d.entries

-- Every refusal keeps the table well formed: its fixed number of entries, and at most one entry
-- in use for an address.
pub add-IsValid : (d : Declined) (ip now : ℕ) → IsValid d → IsValid (add d ip now).0
add-IsValid d ip now v = record {
  size = omega (
    arith,
    Added-length ip now (expire_all now d.entries) (Added-add d ip now),
    length-expire_all now d.entries,
    v.size,
  );
  distinct =
      Added-Distinct ip now (expire_all now d.entries)
        (expire_all-Distinct now d.entries v.distinct) (Added-add d ip now);
}

-- An address that was just refused is held down for exactly the hold time, whatever the table
-- held before and whether or not it was full: at every later time before the clock wraps it is
-- declined if and only if less than decline_hold_ms milliseconds have passed.
pub is_declined-add :
    (d : Declined) (ip now t : ℕ)
    → IsValid d
    → now ≤ t
    → t < 2 ^ 64
    → is_declined (add d ip now).0 ip t ≡ ltb (t - now) decline_hold_ms
unfolding is_declined
is_declined-add d ip now t v h k =
    rw
      (
        held_in-since_of (add d ip now).0.entries ip t,
        Added-self ip now (expire_all now d.entries) (Added-add d ip now)
            (omega (arith, length-expire_all now d.entries, v.size)),
      )
      (ground arith)

held_live : (now : ℕ) (o : Option ℕ) → held_since now (live_since now o) ≡ held_since now o
held_live now none = refl
held_live now (some s) = ground arith

-- A refusal that did not overwrite an entry changes the answer for no other address.
pub is_declined-add_ne :
    (d : Declined) (ip j now : ℕ)
    → IsValid d
    → ip ≢ j
    → (add d ip now).1 ≡ true
    → is_declined (add d ip now).0 j now ≡ is_declined d j now
unfolding is_declined
is_declined-add_ne d ip j now v n h =
    rw
      (
        held_in-since_of (add d ip now).0.entries j now,
        Added-other ip now (expire_all now d.entries) j (Added-add d ip now) h n,
        since_of-expire_all now j d.entries v.distinct,
        held_in-since_of d.entries j now,
      )
      (held_live now (since_of d.entries j))

Distinct-replicate : (n : ℕ) → Distinct (replicate n empty_entry)
Distinct-replicate zero = tt
Distinct-replicate (suc n) = ((λ e. cc e), Distinct-replicate n)

-- The table of a new server is well formed.
pub init-IsValid : IsValid init
unfolding init
init-IsValid = record { size = refl; distinct = Distinct-replicate capacity }
