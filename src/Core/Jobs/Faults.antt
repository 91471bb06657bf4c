-- ===== src/Core/Jobs/Faults.antt =====
-- What begin of the job registry does when every slot holds an operation that has not finished.
use dhcpserver.Base.{
  ℕ, zero, suc, ◌≤◌, ◌<◌, ◌≡◌, ◌⊎◌, inl, inr, refl, sym, ap, subst, ◌∙◌, true, false, List, [], ◌∷◌,
  none, some, get_elem?, bytes_eq, bytes_eq_refl, bytes_eq_sound, arith, Bool-cases, Option-cases,
}
use dhcpserver.Core.Jobs.{
  JobState, running, paused, done, failed, cancelled, JobInfo, Slot, Registry, Request, is_running,
  is_unfinished, is_blank, holds, find_slot, slot_for, new_job, begin,
}
use dhcpserver.Core.Jobs.Slots.{find_slot-ne-none}
use dhcpserver.Core.Jobs.Updates.{find_slot-at}
use dhcpserver.Core.Jobs.Search.{
  AllUsed, AllBusy, own, unused, taken_over, AllUsed-at, slot_for-Chosen, slot_for-none,
}
use dhcpserver.Core.Jobs.Board.{IsValid, board}
use dhcpserver.Core.Jobs.Starting.{placed, placed-board}

-- Every record is of an operation that runs or is paused.
unfoldable pub AllUnfinished : List Slot → Type 0
AllUnfinished [] = Unit {0}
AllUnfinished (s ∷ ss) = (is_unfinished s.job.state ≡ true) × AllUnfinished ss

AllUnfinished-at :
    (ss : List Slot) (i : ℕ) (old : Slot)
    → AllUnfinished ss
    → get_elem? ss i ≡ some old
    → is_unfinished old.job.state ≡ true
unfolding AllUnfinished
AllUnfinished-at [] i old all at_i = absurd (cc at_i)
AllUnfinished-at (x ∷ xs) zero old (u, all) at_i =
    let same : x ≡ old = cc at_i in ap (λ (y : Slot). is_unfinished y.job.state) (sym same) ∙ u
AllUnfinished-at (x ∷ xs) (suc i) old (u, all) at_i = AllUnfinished-at xs i old all at_i

AllBusy-at :
    (now : ℕ) (ss : List Slot) (i : ℕ) (old : Slot)
    → AllBusy now ss
    → get_elem? ss i ≡ some old
    → (is_running old.job.state ≡ true) ⊎ (now < old.started)
unfolding AllBusy
AllBusy-at now [] i old all at_i = absurd (cc at_i)
AllBusy-at now (x ∷ xs) zero old (u, all) at_i =
    let same : x ≡ old = cc at_i in
    subst (λ (y : Slot). (is_running y.job.state ≡ true) ⊎ (now < y.started)) same u
AllBusy-at now (x ∷ xs) (suc i) old (u, all) at_i = AllBusy-at now xs i old all at_i

waiting : (s : JobState) → is_unfinished s ≡ true → is_running s ≡ false → s ≡ paused
waiting running u r = absurd (cc r)
waiting paused u r = refl
waiting done u r = absurd (cc u)
waiting failed u r = absurd (cc u)
waiting cancelled u r = absurd (cc u)

-- The record that a new operation takes over leaves the board.
gone-board :
    (r : Registry) (now : ℕ) (q : Request) (i : ℕ) (old : Slot)
    → IsValid r
    → get_elem? r.slots i ≡ some old
    → old.used ≡ true
    → find_slot q.id r.slots ≡ none
    → (board r old.job.id ≡ some old.job) × (board (placed r now q i) old.job.id ≡ none)
gone-board r now q i old ok at_i used gone =
    let here : holds old old.job.id ≡ true = rw (used, bytes_eq_refl old.job.id) refl in
    let apart : bytes_eq q.id old.job.id ≡ false = elim (Bool-cases (bytes_eq q.id old.job.id)) [
      | inr n ↦ n
      | inl e ↦ absurd (
          find_slot-ne-none r.slots i old old.job.id at_i here
            (ap (λ k. find_slot k r.slots) (sym (bytes_eq_sound q.id old.job.id e)) ∙ gone))
    ] in
    (
      unfold board in rw (find_slot-at r.slots i old ok.distinct at_i used) refl,
      placed-board r now q i old old.job.id ok at_i (inl gone)
          ∙ unfold new_job in rw (apart, here) refl,
    )

-- When every slot holds an operation that has not finished, and one of them is paused and began
-- before the clock's reading, begin of another operation succeeds and removes the record of a
-- paused one.
pub begin_evicts_paused :
    (r : Registry) (search now : ℕ) (q : Request) (i : ℕ) (old : Slot)
    → IsValid r
    → AllUsed r.slots
    → AllUnfinished r.slots
    → get_elem? r.slots i ≡ some old
    → old.job.state ≡ paused
    → old.started ≤ search
    → is_blank q.id ≡ false
    → board r q.id ≡ none
    → ((begin r search now q).1 ≡ true)
      × (victim : JobInfo) × (board r victim.id ≡ some victim)
      × (victim.state ≡ paused)
      × (board (begin r search now q).0 victim.id ≡ none)
unfolding begin
begin_evicts_paused r search now q i old ok all_used all at_i rests early named new =
    let gone : find_slot q.id r.slots ≡ none = elim (Option-cases (find_slot q.id r.slots)) [
      | inl n ↦ n
      | inr (s, found) ↦ absurd (unfold board in cc (new, found))
    ] in
    elim (Option-cases (slot_for r.slots search q.id)) [
      | inl full ↦
          elim (AllBusy-at search r.slots i old (slot_for-none r.slots search q.id full).2 at_i) [
            | inl runs ↦ absurd (cc (ap is_running rests, runs))
            | inr late ↦ absurd (omega arith)
          ]
      | inr (k, found) ↦ elim (slot_for-Chosen r.slots search q.id k found) [
        | own v at_k h ↦ absurd (find_slot-ne-none r.slots k v q.id at_k h gone)
        | unused v at_k n free ↦ absurd (cc (AllUsed-at r.slots k v all_used at_k, free))
        | taken_over v at_k n u idle ↦
            let (before, after) =
              gone-board r now q k v ok at_k (AllUsed-at r.slots k v all_used at_k) gone in
            rw (named, found, begin)
              (
                refl,
                v.job,
                before,
                waiting v.job.state (AllUnfinished-at r.slots k v all at_k) idle,
                after,
              )
      ]
    ]
