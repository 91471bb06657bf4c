-- ===== src/Dhcp/AllowedList/Probing.antt =====
-- Linear probing: what an insertion does to every later look-up.
use dhcpserver.Base.{
  ℕ, zero, suc, ◌+◌, ◌-◌, ◌%◌, ◌<◌, ◌≡◌, refl, ◌≢◌, ◌⊎◌, inl, inr, true, false, List, [], ◌∷◌, none,
  some, if◌then◌else◌, set, length, bytes_eq, bytes_eq_iff, bytes_eq_refl, Bool-cases, arith,
  get_or-set_self, get_or-set_ne,
}
use dhcpserver.Dhcp.AllowedList.{
  Slot, slot_count, empty_slot, slot_at, home, free_from, free_slot, contains_from,
}

abbrev pub stored_slot : List ℕ → Slot
stored_slot mac = record { mac = mac; used = true }

-- A slot in use holds the address.
abbrev pub Stored : List Slot → List ℕ → Type 0
Stored table mac =
    (i : ℕ) × (i < slot_count) × ((slot_at table i).used ≡ true) × ((slot_at table i).mac ≡ mac)

abbrev next : ℕ → ℕ
next i = (i + 1) % slot_count

pub contains_from-Stored :
    (n : ℕ) (table : List Slot) (i : ℕ) (mac : List ℕ)
    → i < slot_count
    → contains_from n table i mac ≡ true
    → Stored table mac
unfolding contains_from
contains_from-Stored zero table i mac h c = ground arith
contains_from-Stored (suc n) table i mac h c = elim (Bool-cases (slot_at table i).used) [
  | inr u ↦ ground (arith, u)
  | inl u ↦ elim (Bool-cases (bytes_eq (slot_at table i).mac mac)) [
    | inl e ↦ (i, h, u, (bytes_eq_iff _ _).0 e)
    | inr e ↦ contains_from-Stored n table (next i) mac (omega arith) (ground (arith, u, e))
  ]
]

-- Filling a free slot never hides what a look-up finds.
pub contains_from-set :
    (n : ℕ) (table : List Slot) (i p : ℕ) (mac new : List ℕ)
    → (slot_at table p).used ≡ false
    → p < length table
    → contains_from n table i mac ≡ true
    → contains_from n (set table p (stored_slot new)) i mac ≡ true
unfolding contains_from
contains_from-set zero table i p mac new f b c = ground arith
contains_from-set (suc n) table i p mac new f b c = elim (Bool-cases (slot_at table i).used) [
  | inr u ↦ ground (arith, u)
  | inl u ↦
      let apart : p ≢ i = (λ e. ground (arith, e)) in
      ground (
        arith,
        u,
        get_or-set_ne table p i (stored_slot new) empty_slot apart,
        contains_from-set n table (next i) p mac new f b,
      )
]

-- The slot that an insertion takes is where a look-up for the address then ends.
pub free_from-contains :
    (n : ℕ) (table : List Slot) (i p : ℕ) (mac : List ℕ)
    → i < slot_count
    → length table ≡ slot_count
    → free_from n table i mac ≡ some p
    → ((slot_at table p).used ≡ false)
      × (p < slot_count)
      × (contains_from n (set table p (stored_slot mac)) i mac ≡ true)
unfolding free_from contains_from
free_from-contains zero table i p mac h l e = ground arith
free_from-contains (suc n) table i p mac h l e = elim (Bool-cases (slot_at table i).used) [
  | inr u ↦
      let q : i ≡ p = ground (arith, u) in
      ground (arith, u, q, get_or-set_self table i (stored_slot mac) empty_slot, bytes_eq_refl mac)
  | inl u ↦ elim (Bool-cases (bytes_eq (slot_at table i).mac mac)) [
    | inl d ↦ ground (arith, u, d)
    | inr d ↦
        let later =
          free_from-contains n table (next i) p mac (omega arith) l (ground (arith, u, d)) in
        let apart : p ≢ i = (λ q. ground (arith, q, later.0)) in
        (
          later.0,
          later.1,
          ground (arith, u, d, later.2, get_or-set_ne table p i (stored_slot mac) empty_slot apart),
        )
  ]
]

cycle_step :
    (n : ℕ) (table : List Slot) (i : ℕ)
    → i < slot_count
    → (slot_at table i).used ≡ true
    → ((k : ℕ) → k < n → (slot_at table ((next i + k) % slot_count)).used ≡ true)
    → (k : ℕ) → k < suc n
    → (slot_at table ((i + k) % slot_count)).used ≡ true
cycle_step n table i h u all zero b = let e : (i + 0) % slot_count ≡ i = omega arith in rw e u
cycle_step n table i h u all (suc k) b =
    let e : (i + suc k) % slot_count ≡ (next i + k) % slot_count = omega arith in
    rw e (all k (omega arith))

whole_cycle :
    (table : List Slot) (i : ℕ)
    → i < slot_count
    → ((k : ℕ) → k < slot_count → (slot_at table ((i + k) % slot_count)).used ≡ true)
    → (q : ℕ) → q < slot_count
    → (slot_at table q).used ≡ true
whole_cycle table i h all q b =
    let e : (i + (q + slot_count - i) % slot_count) % slot_count ≡ q = omega arith in
    rw e at (all ((q + slot_count - i) % slot_count) (omega arith))

-- Why no slot is free: the address is there already, or the whole cycle is in use.
free_from-none :
    (n : ℕ) (table : List Slot) (i : ℕ) (mac : List ℕ)
    → i < slot_count
    → free_from n table i mac ≡ none
    → (contains_from n table i mac ≡ true)
      ⊎ ((k : ℕ) → k < n → (slot_at table ((i + k) % slot_count)).used ≡ true)
unfolding free_from contains_from
free_from-none zero table i mac h e = inr (λ k h. absurd (omega arith))
free_from-none (suc n) table i mac h e = elim (Bool-cases (slot_at table i).used) [
  | inr u ↦ ground (arith, u)
  | inl u ↦ elim (Bool-cases (bytes_eq (slot_at table i).mac mac)) [
    | inl d ↦ inl (ground (arith, u, d))
    | inr d ↦ elim (free_from-none n table (next i) mac (omega arith) (ground (arith, u, d))) [
      | inl c ↦ inl (ground (arith, u, d, c))
      | inr all ↦ inr (cycle_step n table i h u all)
    ]
  ]
]

unfoldable pub used_count : List Slot → ℕ
used_count [] = 0
used_count (s ∷ ss) = used_count ss + (if s.used then 1 else 0)

used_count_full :
    (table : List Slot)
    → ((k : ℕ) → k < length table → (slot_at table k).used ≡ true)
    → used_count table ≡ length table
unfolding used_count
used_count_full [] all = refl
used_count_full (s ∷ ss) all =
    ground (arith, all 0 (omega arith), used_count_full ss (λ k h. all (suc k) (omega arith)))

pub used_count-set :
    (table : List Slot) (p : ℕ) (mac : List ℕ)
    → p < length table
    → (slot_at table p).used ≡ false
    → used_count (set table p (stored_slot mac)) ≡ used_count table + 1
unfolding used_count
used_count-set [] p mac h u = absurd (omega arith)
used_count-set (s ∷ ss) zero mac h u = ground arith
used_count-set (s ∷ ss) (suc p) mac h u = omega (arith, used_count-set ss p mac (omega arith) u)

-- A table with room refuses only an address that a look-up finds.
pub free_slot-none :
    (table : List Slot) (mac : List ℕ)
    → length table ≡ slot_count
    → used_count table < slot_count
    → free_slot table mac ≡ none
    → contains_from slot_count table (home mac) mac ≡ true
unfolding free_slot
free_slot-none table mac l room e =
    elim (free_from-none slot_count table (home mac) mac (omega arith) e) [
      | inl c ↦ c
      | inr all ↦ absurd (
          omega (
            arith,
            used_count_full table
                (λ k h. whole_cycle table (home mac) (omega arith) all k (omega arith)),
            l,
          ))
    ]
