-- ===== src/Core/Jobs/Search.antt =====
-- What slotFor of the job registry finds.
use dhcpserver.Base.{
  ℕ, zero, suc, ◌+◌, ◌-◌, ◌≤◌, ◌<◌, ◌≡◌, ◌⊎◌, inl, inr, refl, sym, ap, ◌∙◌, true, false, not, ◌&&◌,
  List, [], ◌∷◌, Option, none, some, leb, get_elem?, arith, Bool-cases, Option-cases,
}
use dhcpserver.Core.Jobs.{
  Slot, is_running, holds, find_slot, index_of, unused_index, oldest, slot_for,
}

get_elem?-later :
    (x : Slot) (xs : List Slot) (i k : ℕ) → k + 1 ≡ i → get_elem? (x ∷ xs) i ≡ get_elem? xs k
get_elem?-later x xs zero k e = absurd (omega arith)
get_elem?-later x xs (suc i) k e = let same : i ≡ k = omega arith in rw same refl

-- What the first loop finds.
index_of-some :
    (id : List ℕ) (ss : List Slot) (i : ℕ)
    → index_of id ss ≡ some i
    → (old : Slot) × (get_elem? ss i ≡ some old) × (holds old id ≡ true)
unfolding index_of
index_of-some id [] i e = absurd (cc e)
index_of-some id (x ∷ xs) i e = elim (Bool-cases (holds x id)) [
  | inl here ↦ let at_0 : 0 ≡ i = ground (arith, here, e) in (x, rw (sym at_0) refl, here)
  | inr other ↦ elim (Option-cases (index_of id xs)) [
    | inl gone ↦ absurd (ground (arith, other, gone, e))
    | inr (k, found) ↦
        let next : k + 1 ≡ i = ground (arith, other, found, e) in
        let (old, at_k, h) = index_of-some id xs k found in
        (old, get_elem?-later x xs i k next ∙ at_k, h)
  ]
]

index_of-none : (id : List ℕ) (ss : List Slot) → index_of id ss ≡ none → find_slot id ss ≡ none
unfolding index_of find_slot
index_of-none id [] e = refl
index_of-none id (x ∷ xs) e = elim (Bool-cases (holds x id)) [
  | inl here ↦ absurd (ground (arith, here, e))
  | inr other ↦ elim (Option-cases (index_of id xs)) [
    | inl gone ↦ rw other (index_of-none id xs gone)
    | inr (k, found) ↦ absurd (ground (arith, other, found, e))
  ]
]

-- What the second loop finds.
unused_index-some :
    (ss : List Slot) (i : ℕ)
    → unused_index ss ≡ some i
    → (old : Slot) × (get_elem? ss i ≡ some old) × (old.used ≡ false)
unfolding unused_index
unused_index-some [] i e = absurd (cc e)
unused_index-some (x ∷ xs) i e = elim (Bool-cases x.used) [
  | inr free ↦ let at_0 : 0 ≡ i = ground (arith, free, e) in (x, rw (sym at_0) refl, free)
  | inl used ↦ elim (Option-cases (unused_index xs)) [
    | inl gone ↦ absurd (ground (arith, used, gone, e))
    | inr (k, found) ↦
        let next : k + 1 ≡ i = ground (arith, used, found, e) in
        let (old, at_k, h) = unused_index-some xs k found in
        (old, get_elem?-later x xs i k next ∙ at_k, h)
  ]
]

-- Every slot holds a record.
unfoldable pub AllUsed : List Slot → Type 0
AllUsed [] = Unit {0}
AllUsed (s ∷ ss) = (s.used ≡ true) × AllUsed ss

unused_index-none : (ss : List Slot) → unused_index ss ≡ none → AllUsed ss
unfolding unused_index AllUsed
unused_index-none [] e = tt
unused_index-none (x ∷ xs) e = elim (Bool-cases x.used) [
  | inr free ↦ absurd (ground (arith, free, e))
  | inl used ↦ elim (Option-cases (unused_index xs)) [
    | inl gone ↦ (used, unused_index-none xs gone)
    | inr (k, found) ↦ absurd (ground (arith, used, found, e))
  ]
]

-- Every record is of a running operation, or one that the clock has not reached.
unfoldable pub AllBusy : ℕ → List Slot → Type 0
AllBusy now [] = Unit {0}
AllBusy now (s ∷ ss) = ((is_running s.job.state ≡ true) ⊎ (now < s.started)) × AllBusy now ss

oldest-some :
    (ss : List Slot) (i : ℕ) (best : Option ℕ) (best_time r : ℕ)
    → oldest ss i best best_time ≡ some r
    → (best ≡ some r)
      ⊎ ((old : Slot) × (i ≤ r)
          × (get_elem? ss (r - i) ≡ some old)
          × (is_running old.job.state ≡ false))
unfolding oldest
oldest-some [] i best best_time r e = inl e
oldest-some (x ∷ xs) i best best_time r e =
    elim (Bool-cases (not (is_running x.job.state) && leb x.started best_time)) [
      | inl takes ↦ elim (oldest-some xs (i + 1) (some i) x.started r (rw takes at e)) [
        | inl chosen ↦
            let at_i : r ≡ i = cc chosen in
            let place : r - i ≡ 0 = omega arith in
            inr (x, omega arith, ap (get_elem? (x ∷ xs)) place, ground (arith, takes))
        | inr (old, le, at_r, rests) ↦ inr (
          old,
          omega arith,
          get_elem?-later x xs (r - i) (r - (i + 1)) (omega arith) ∙ at_r,
          rests,
        )
      ]
      | inr passes ↦ elim (oldest-some xs (i + 1) best best_time r (rw passes at e)) [
        | inl chosen ↦ inl chosen
        | inr (old, le, at_r, rests) ↦ inr (
          old,
          omega arith,
          get_elem?-later x xs (r - i) (r - (i + 1)) (omega arith) ∙ at_r,
          rests,
        )
      ]
    ]

oldest-none :
    (ss : List Slot) (i : ℕ) (best : Option ℕ) (best_time : ℕ)
    → oldest ss i best best_time ≡ none
    → (best ≡ none) × AllBusy best_time ss
unfolding oldest AllBusy
oldest-none [] i best best_time e = (e, tt)
oldest-none (x ∷ xs) i best best_time e =
    elim (Bool-cases (not (is_running x.job.state) && leb x.started best_time)) [
      | inl takes ↦ absurd (cc (oldest-none xs (i + 1) (some i) x.started (rw takes at e)).0)
      | inr passes ↦
          let rest = oldest-none xs (i + 1) best best_time (rw passes at e) in
          let busy : (is_running x.job.state ≡ true) ⊎ (best_time < x.started) =
            elim (Bool-cases (is_running x.job.state)) [
              | inl runs ↦ inl runs
              | inr rests ↦ inr (ground (arith, passes, rests))
            ] in
          (rest.0, (busy, rest.1))
    ]

-- The slot for an operation: its own, an unused one when it has none, or when there is none either
-- one whose operation is not running.
pub data Chosen (ss : List Slot) (id : List ℕ) (i : ℕ) : Type 0 where
  own : (old : Slot) → get_elem? ss i ≡ some old → holds old id ≡ true → Chosen ss id i
  unused :
      (old : Slot)
      → get_elem? ss i ≡ some old
      → find_slot id ss ≡ none
      → old.used ≡ false
      → Chosen ss id i
  taken_over :
      (old : Slot)
      → get_elem? ss i ≡ some old
      → find_slot id ss ≡ none
      → AllUsed ss
      → is_running old.job.state ≡ false
      → Chosen ss id i

pub slot_for-Chosen :
    (ss : List Slot) (now : ℕ) (id : List ℕ) (i : ℕ) → slot_for ss now id ≡ some i → Chosen ss id i
unfolding slot_for
slot_for-Chosen ss now id i e = elim (Option-cases (index_of id ss)) [
  | inr (k, mine) ↦
      let at_i : k ≡ i = ground (arith, mine, e) in
      let (old, at_k, h) = index_of-some id ss k mine in
      own old (ap (get_elem? ss) (sym at_i) ∙ at_k) h
  | inl new ↦ elim (Option-cases (unused_index ss)) [
    | inr (k, free) ↦
        let at_i : k ≡ i = ground (arith, new, free, e) in
        let (old, at_k, h) = unused_index-some ss k free in
        unused old (ap (get_elem? ss) (sym at_i) ∙ at_k) (index_of-none id ss new) h
    | inl full ↦
        let found : oldest ss 0 none now ≡ some i = ground (arith, new, full, e) in
        elim (oldest-some ss 0 none now i found) [
          | inl chosen ↦ absurd (cc chosen)
          | inr (old, le, at_i, rests) ↦
              taken_over old (ap (get_elem? ss) (omega arith) ∙ at_i) (index_of-none id ss new)
                (unused_index-none ss full) rests
        ]
  ]
]

-- No slot is given only when all hold busy records of other operations.
pub slot_for-none :
    (ss : List Slot) (now : ℕ) (id : List ℕ)
    → slot_for ss now id ≡ none
    → (find_slot id ss ≡ none) × AllUsed ss × AllBusy now ss
unfolding slot_for
slot_for-none ss now id e = elim (Option-cases (index_of id ss)) [
  | inr (k, mine) ↦ absurd (ground (arith, mine, e))
  | inl new ↦ elim (Option-cases (unused_index ss)) [
    | inr (k, free) ↦ absurd (ground (arith, new, free, e))
    | inl full ↦
        let gone : oldest ss 0 none now ≡ none = ground (arith, new, full, e) in
        (index_of-none id ss new, unused_index-none ss full, (oldest-none ss 0 none now gone).1)
  ]
]

pub AllUsed-at :
    (ss : List Slot) (i : ℕ) (old : Slot) → AllUsed ss → get_elem? ss i ≡ some old → old.used ≡ true
unfolding AllUsed
AllUsed-at [] i old all at_i = absurd (cc at_i)
AllUsed-at (x ∷ xs) zero old (u, all) at_i =
    let same : x ≡ old = cc at_i in ap (λ (y : Slot). y.used) (sym same) ∙ u
AllUsed-at (x ∷ xs) (suc i) old (u, all) at_i = AllUsed-at xs i old all at_i
