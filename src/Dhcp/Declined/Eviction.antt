-- ===== src/Dhcp/Declined/Eviction.antt =====
-- Which refusal a full table forgets.
use dhcpserver.Base.{
  ℕ, suc, ◌+◌, ◌≤◌, ◌<◌, ◌≡◌, refl, ◌⊎◌, inl, inr, true, false, List, [], ◌∷◌, none, some, ltb, set,
  length, get_elem?, Option-cases, Bool-cases, arith,
}
use dhcpserver.Dhcp.Declined.{
  Entry, Declined, expire, expire_all, refresh, fill, oldest, oldest_index, add,
}

abbrev pub AllUsed : List Entry → Type 0
AllUsed [] = Unit {0}
AllUsed (e ∷ es) = (e.used ≡ true) × AllUsed es

abbrev pub AllSince : ℕ → List Entry → Type 0
AllSince m [] = Unit {0}
AllSince m (e ∷ es) = (m ≤ e.since_ms) × AllSince m es

fill_full : (ip now : ℕ) (es : List Entry) → fill ip now es ≡ none → AllUsed es
unfolding fill
fill_full ip now [] h = tt
fill_full ip now (e ∷ es) h = elim (Option-cases (fill ip now es)) [
  | inl q ↦ ground (arith, q, fill_full ip now es)
  | inr (gs, q) ↦ ground (arith, q)
]

AllSince-mono : (m n : ℕ) (es : List Entry) → m ≤ n → AllSince n es → AllSince m es
AllSince-mono m n [] h a = tt
AllSince-mono m n (e ∷ es) h a = (omega arith, AllSince-mono m n es h a.1)

-- The scan ends at the position of a minimum: either the best so far, or an entry of the rest.
abbrev Least : List Entry → ℕ → ℕ → ℕ → ℕ → Type 0
Least es i best m r =
    ((r ≡ best) × AllSince m es)
    ⊎ ((k : ℕ) × (e : Entry) × (r ≡ i + k)
        × (get_elem? es k ≡ some e)
        × AllSince e.since_ms es
        × (e.since_ms ≤ m))

oldest-Least : (es : List Entry) (i best m : ℕ) → Least es i best m (oldest es i best m)
unfolding oldest
oldest-Least [] i best m = inl (refl, tt)
oldest-Least (e ∷ es) i best m = elim (Bool-cases (ltb e.since_ms m)) [
  | inl q ↦ rw q (elim (oldest-Least es (i + 1) i e.since_ms) [
    | inl (r, a) ↦ inr (0, e, omega arith, refl, (omega arith, a), ground arith)
    | inr (k, x, r, g, a, l) ↦ inr (suc k, x, omega arith, g, (l, a), ground arith)
  ])
  | inr q ↦ rw q (elim (oldest-Least es (i + 1) best m) [
    | inl (r, a) ↦ inl (r, (ground arith, a))
    | inr (k, x, r, g, a, l) ↦ inr (suc k, x, omega arith, g, (ground arith, a), l)
  ])
]

oldest_index-Least :
    (es : List Entry)
    → 0 < length es
    → (e : Entry) × (get_elem? es (oldest_index es) ≡ some e) × AllSince e.since_ms es
unfolding oldest_index
oldest_index-Least [] h = absurd (omega arith)
oldest_index-Least (e ∷ es) h = elim (oldest-Least es 1 0 e.since_ms) [
  | inl (r, a) ↦ (e, rw r refl, (omega arith, a))
  | inr (k, x, r, g, a, l) ↦
      (let p : oldest es 1 0 e.since_ms ≡ suc k = omega arith in (x, rw p g, (l, a)))
]

length_expired : (now : ℕ) (es : List Entry) → length (expire_all now es) ≡ length es
unfolding expire_all
length_expired now [] = refl
length_expired now (e ∷ es) = omega (arith, length_expired now es)

-- When a refusal reports that the table was full, every entry was in force, and exactly one entry
-- was overwritten, one whose refusal is at least as old as every other.
pub add_evicts_oldest :
    (d : Declined) (ip now : ℕ)
    → 0 < length d.entries
    → (add d ip now).1 ≡ false
    → AllUsed (expire d now).entries
      × ((i : ℕ) × (e : Entry) × (get_elem? (expire d now).entries i ≡ some e)
          × AllSince e.since_ms (expire d now).entries
          × ((add d ip now).0.entries
              ≡ set (expire d now).entries i (record { ip = ip; since_ms = now; used = true })))
unfolding add
add_evicts_oldest d ip now pos h = elim (Option-cases (refresh ip now (expire_all now d.entries))) [
  | inr (fs, q) ↦ ground (arith, q)
  | inl q ↦ elim (Option-cases (fill ip now (expire_all now d.entries))) [
    | inr (fs, r) ↦ ground (arith, q, r)
    | inl r ↦
        let least =
          oldest_index-Least (expire_all now d.entries)
            (omega (arith, length_expired now d.entries)) in
        (
          fill_full ip now _ r,
          (oldest_index (expire_all now d.entries), least.0, least.1, least.2, rw (q, r, add) refl),
        )
  ]
]
