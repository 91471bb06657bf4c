-- ===== src/Core/Jobs/Slots.antt =====
-- Finding a record in the slots of the job registry after a slot was written.
use dhcpserver.Base.{
  ℕ, zero, suc, ◌≡◌, ◌≢◌, ◌⊎◌, inl, inr, sym, ap, ◌∙◌, true, false, List, [], ◌∷◌, none, some,
  if◌then◌else◌, set, get_elem?, bytes_eq, bytes_eq_sound, arith, Bool-cases,
}
use dhcpserver.Core.Jobs.{Slot, holds, find_slot}

-- No two used slots hold one operation.
unfoldable pub Distinct : List Slot → Type 0
Distinct [] = Unit {0}
Distinct (s ∷ ss) = (s.used ≡ true → find_slot s.job.id ss ≡ none) × Distinct ss

-- A record that a slot holds is found.
pub find_slot-ne-none :
    (ss : List Slot) (i : ℕ) (old : Slot) (k : List ℕ)
    → get_elem? ss i ≡ some old
    → holds old k ≡ true
    → find_slot k ss ≢ none
unfolding find_slot
find_slot-ne-none [] i old k at_i h e = absurd (cc at_i)
find_slot-ne-none (x ∷ xs) zero old k at_i h e =
    let same : x ≡ old = cc at_i in
    let here : holds x k ≡ true = ap (λ (y : Slot). holds y k) same ∙ h in
    absurd (ground (arith, here, e))
find_slot-ne-none (x ∷ xs) (suc i) old k at_i h e = elim (Bool-cases (holds x k)) [
  | inl here ↦ absurd (ground (arith, here, e))
  | inr other ↦ find_slot-ne-none xs i old k at_i h (rw other at e)
]

-- No slot behind one that holds an operation holds it too.
pub absent :
    (x : Slot) (xs : List Slot) (k : List ℕ)
    → (x.used ≡ true → find_slot x.job.id xs ≡ none)
    → holds x k ≡ true
    → find_slot k xs ≡ none
absent x xs k d h =
    let used : x.used ≡ true = ground (arith, h) in
    let name : bytes_eq x.job.id k ≡ true = ground (arith, h, used) in
    ap (λ n. find_slot n xs) (sym (bytes_eq_sound x.job.id k name)) ∙ d used

-- What is found after a slot is written whose operation stands in no other slot: the new record
-- under its own name, nothing under the name of the one that it replaced.
pub find_slot-set :
    (ss : List Slot) (i : ℕ) (s old : Slot) (j : List ℕ)
    → Distinct ss
    → get_elem? ss i ≡ some old
    → s.used ≡ true
    → (find_slot s.job.id ss ≡ none) ⊎ (holds old s.job.id ≡ true)
    → find_slot j (set ss i s)
      ≡ (if bytes_eq s.job.id j then some s else if holds old j then none else find_slot j ss)
unfolding Distinct find_slot
find_slot-set [] i s old j d at_i u o = absurd (cc at_i)
find_slot-set (x ∷ xs) zero s old j (d, ds) at_i u o =
    let same : x ≡ old = cc at_i in
    elim (Bool-cases (bytes_eq s.job.id j)) [
      | inl e ↦ ground (arith, e, u)
      | inr e ↦ elim (Bool-cases (holds old j)) [
        | inl h ↦
            let gone = absent x xs j d (ap (λ (y : Slot). holds y j) same ∙ h) in
            ground (arith, e, h, u, gone)
        | inr h ↦
            let here : holds x j ≡ false = ap (λ (y : Slot). holds y j) same ∙ h in
            ground (arith, e, h, u, here)
      ]
    ]
find_slot-set (x ∷ xs) (suc i) s old j (d, ds) at_i u o = elim (Bool-cases (holds x j)) [
  | inl here ↦
      let gone = absent x xs j d here in
      let old_other : holds old j ≡ false = elim (Bool-cases (holds old j)) [
        | inl h ↦ absurd (find_slot-ne-none xs i old j at_i h gone)
        | inr h ↦ h
      ] in
      let new_other : bytes_eq s.job.id j ≡ false = elim (Bool-cases (bytes_eq s.job.id j)) [
        | inr e ↦ e
        | inl e ↦
            let name = bytes_eq_sound s.job.id j e in
            elim o [
              | inl clear ↦
                  absurd (ground (arith, here, ap (λ k. find_slot k (x ∷ xs)) (sym name) ∙ clear))
              | inr h ↦
                  absurd
                    (find_slot-ne-none xs i old j at_i (ap (λ k. holds old k) (sym name) ∙ h) gone)
            ]
      ] in
      ground (arith, here, old_other, new_other)
  | inr other ↦
      let o' : (find_slot s.job.id xs ≡ none) ⊎ (holds old s.job.id ≡ true) = elim o [
        | inl clear ↦ inl (ground (arith, clear))
        | inr h ↦ inr h
      ] in
      rw other (find_slot-set xs i s old j ds at_i u o')
]
