-- ===== src/Core/Jobs/Updates.antt =====
-- The slots of the job registry after a record in them was changed.
use dhcpserver.Base.{
  ℕ, zero, suc, ◌≡◌, ◌⊎◌, inl, inr, refl, sym, ap, ◌∙◌, true, false, List, [], ◌∷◌, Option, none,
  some, if◌then◌else◌, length, set, get_elem?, bytes_eq, bytes_eq_refl, bytes_eq_sound, arith,
  Bool-cases,
}
use dhcpserver.Core.Jobs.{Slot, holds, find_slot, update_slot, clear_slots}
use dhcpserver.Core.Jobs.Slots.{Distinct, find_slot-ne-none, absent, find_slot-set}

-- What an update leaves of a record.
abbrev pub kept : (Slot → Slot) → Option Slot → Option Slot
kept f none = none
kept f (some s) = if (f s).used then some (f s) else none

-- An update that renames nothing.
abbrev pub Keeps : (Slot → Slot) → Type 0
Keeps f = (s : Slot) → (f s).used ≡ true → (f s).job.id ≡ s.job.id

-- What is found after the record of an operation was updated or cleared.
pub find_slot-update_slot :
    (id : List ℕ) (f : Slot → Slot) (ss : List Slot) (j : List ℕ)
    → Keeps f
    → Distinct ss
    → find_slot j (update_slot id f ss)
      ≡ (if bytes_eq id j then kept f (find_slot j ss) else find_slot j ss)
unfolding Distinct find_slot update_slot
find_slot-update_slot id f [] j k d = ground arith
find_slot-update_slot id f (x ∷ xs) j k (d, ds) = elim (Bool-cases (holds x id)) [
  | inr other ↦ elim (Bool-cases (holds x j)) [
    | inr apart ↦ rw (other, apart) (find_slot-update_slot id f xs j k ds)
    | inl here ↦
        let differ : bytes_eq id j ≡ false = elim (Bool-cases (bytes_eq id j)) [
          | inr e ↦ e
          | inl e ↦
              absurd (ground (arith, ap (λ n. holds x n) (bytes_eq_sound id j e), other, here))
        ] in
        rw (other, here, differ) refl
  ]
  | inl mine ↦
      let gone = absent x xs id d mine in
      let used : x.used ≡ true = ground (arith, mine) in
      let name : x.job.id ≡ id = bytes_eq_sound x.job.id id (ground (arith, mine, used)) in
      elim (Bool-cases (f x).used) [
        | inl stays ↦
            let new_name : (f x).job.id ≡ id = k x stays ∙ name in
            let new_holds : holds (f x) j ≡ bytes_eq id j =
              rw stays (ap (λ n. bytes_eq n j) new_name) in
            let old_holds : holds x j ≡ bytes_eq id j = rw used (ap (λ n. bytes_eq n j) name) in
            elim (Bool-cases (bytes_eq id j)) [
              | inl e ↦ rw (mine, new_holds, old_holds, e) (rw stays refl)
              | inr e ↦ rw (mine, new_holds, old_holds, e) refl
            ]
        | inr cleared ↦
            let new_holds : holds (f x) j ≡ false = rw cleared refl in
            let old_holds : holds x j ≡ bytes_eq id j = rw used (ap (λ n. bytes_eq n j) name) in
            elim (Bool-cases (bytes_eq id j)) [
              | inl e ↦
                  let gone' = ap (λ n. find_slot n xs) (sym (bytes_eq_sound id j e)) ∙ gone in
                  rw (mine, new_holds, old_holds, e) (rw cleared gone')
              | inr e ↦ rw (mine, new_holds, old_holds, e) refl
            ]
      ]
]

pub Distinct-update_slot :
    (id : List ℕ) (f : Slot → Slot) (ss : List Slot)
    → Keeps f
    → Distinct ss
    → Distinct (update_slot id f ss)
unfolding Distinct update_slot
Distinct-update_slot id f [] k d = tt
Distinct-update_slot id f (x ∷ xs) k (d, ds) = elim (Bool-cases (holds x id)) [
  | inl mine ↦
      rw mine ((λ stays. ap (λ n. find_slot n xs) (k x stays) ∙ d (ground (arith, mine))), ds)
  | inr other ↦ rw other (
    (λ used.
        let at_name = find_slot-update_slot id f xs x.job.id k ds in
        let free = d used in
        elim (Bool-cases (bytes_eq id x.job.id)) [
          | inl e ↦ at_name ∙ rw (e, free) refl
          | inr e ↦ at_name ∙ rw (e, free) refl
        ]),
    Distinct-update_slot id f xs k ds,
  )
]

-- The condition on a written slot, for the slots behind the first.
behind :
    (x : Slot) (xs : List Slot) (s old : Slot)
    → (find_slot s.job.id (x ∷ xs) ≡ none) ⊎ (holds old s.job.id ≡ true)
    → (find_slot s.job.id xs ≡ none) ⊎ (holds old s.job.id ≡ true)
unfolding find_slot
behind x xs s old (inl clear) = inl (ground (arith, clear))
behind x xs s old (inr h) = inr h

pub Distinct-set :
    (ss : List Slot) (i : ℕ) (s old : Slot)
    → Distinct ss
    → get_elem? ss i ≡ some old
    → s.used ≡ true
    → (find_slot s.job.id ss ≡ none) ⊎ (holds old s.job.id ≡ true)
    → Distinct (set ss i s)
unfolding Distinct find_slot
Distinct-set [] i s old d at_i u o = absurd (cc at_i)
Distinct-set (x ∷ xs) zero s old (d, ds) at_i u (inl clear) = ((λ _. ground (arith, clear)), ds)
Distinct-set (x ∷ xs) zero s old (d, ds) at_i u (inr h) =
    let same : x ≡ old = cc at_i in
    ((λ _. absent x xs s.job.id d (ap (λ (y : Slot). holds y s.job.id) same ∙ h)), ds)
Distinct-set (x ∷ xs) (suc i) s old (d, ds) at_i u o = (
  (λ used.
      let free = d used in
      let at_name = find_slot-set xs i s old x.job.id ds at_i u (behind x xs s old o) in
      let differ : bytes_eq s.job.id x.job.id ≡ false =
        elim (Bool-cases (bytes_eq s.job.id x.job.id)) [
          | inr e ↦ e
          | inl e ↦
              let name = bytes_eq_sound s.job.id x.job.id e in
              elim o [
                | inl clear ↦
                    let holds_x : holds x s.job.id ≡ true =
                      rw used (ap (λ n. bytes_eq n s.job.id) (sym name) ∙ bytes_eq_refl s.job.id) in
                    absurd (ground (arith, clear, holds_x))
                | inr h ↦ absurd (
                    find_slot-ne-none xs i old s.job.id at_i h
                      (ap (λ n. find_slot n xs) name ∙ free))
              ]
        ] in
      at_name ∙ ground (arith, differ, free)),
  Distinct-set xs i s old ds at_i u (behind x xs s old o),
)

-- What is found is a record of that operation.
pub find_slot-holds :
    (id : List ℕ) (ss : List Slot) (s : Slot) → find_slot id ss ≡ some s → holds s id ≡ true
unfolding find_slot
find_slot-holds id [] s e = absurd (cc e)
find_slot-holds id (x ∷ xs) s e = elim (Bool-cases (holds x id)) [
  | inl here ↦
      let same : x ≡ s = cc (rw here at e) in ap (λ (y : Slot). holds y id) (sym same) ∙ here
  | inr other ↦ find_slot-holds id xs s (rw other at e)
]

pub length-update_slot :
    (id : List ℕ) (f : Slot → Slot) (ss : List Slot) → length (update_slot id f ss) ≡ length ss
unfolding update_slot
length-update_slot id f [] = refl
length-update_slot id f (x ∷ xs) = ground (arith, length-update_slot id f xs)

pub Distinct-clear_slots : (ss : List Slot) → Distinct (clear_slots ss)
unfolding Distinct clear_slots
Distinct-clear_slots [] = tt
Distinct-clear_slots (s ∷ ss) = ((λ e. absurd (cc e)), Distinct-clear_slots ss)

pub length-clear_slots : (ss : List Slot) → length (clear_slots ss) ≡ length ss
unfolding clear_slots
length-clear_slots [] = refl
length-clear_slots (s ∷ ss) = ground (arith, length-clear_slots ss)

-- A used slot is found under the name of its operation.
pub find_slot-at :
    (ss : List Slot) (i : ℕ) (old : Slot)
    → Distinct ss
    → get_elem? ss i ≡ some old
    → old.used ≡ true
    → find_slot old.job.id ss ≡ some old
unfolding Distinct find_slot
find_slot-at [] i old d at_i u = absurd (cc at_i)
find_slot-at (x ∷ xs) zero old (d, ds) at_i u =
    let same : x ≡ old = cc at_i in
    let here : holds x old.job.id ≡ true =
      ap (λ (y : Slot). holds y old.job.id) same ∙ rw u (bytes_eq_refl old.job.id) in
    rw here (ap (λ y. some y) same)
find_slot-at (x ∷ xs) (suc i) old (d, ds) at_i u =
    let own : holds old old.job.id ≡ true = rw u (bytes_eq_refl old.job.id) in
    elim (Bool-cases (holds x old.job.id)) [
      | inl here ↦
          absurd (find_slot-ne-none xs i old old.job.id at_i own (absent x xs old.job.id d here))
      | inr other ↦ rw other (find_slot-at xs i old ds at_i u)
    ]
