-- ===== src/Core/Jobs/Refines.antt =====
-- The operations of the job registry do on the board what they promise.
use dhcpserver.Base.{
  ℕ, ◌≡◌, inl, inr, refl, sym, ap, ◌∙◌, true, List, [], ◌∷◌, none, some, ◌==◌, if◌then◌else◌, arith,
  Bool-cases, Option-cases,
}
use dhcpserver.Core.Jobs.{
  JobState, JobInfo, Slot, Registry, is_unfinished, find_slot, progressed, progress, held_up, pause,
  ended, ended_slot, finish, asked, request_cancel, clear, clear_slots, detailed,
}
use dhcpserver.Core.Jobs.Updates.{Distinct-clear_slots, length-clear_slots, kept, Keeps}
use dhcpserver.Core.Jobs.Board.{
  IsValid, Board, board, job_of, change, after_end, update-board, update-IsValid, unchanged-board,
}

detailed-id : (detail : List ℕ) (j : JobInfo) → (detailed detail j).id ≡ j.id
detailed-id [] j = refl
detailed-id (c ∷ cs) j = refl

progressed-id :
    (count total : ℕ) (detail : List ℕ) (j : JobInfo) → (progressed count total detail j).id ≡ j.id
unfolding progressed
progressed-id count total detail j = detailed-id detail _

held_up-id : (detail : List ℕ) (seconds : ℕ) (j : JobInfo) → (held_up detail seconds j).id ≡ j.id
unfolding held_up
held_up-id detail seconds j = detailed-id detail _

ended-id : (state : JobState) (detail : List ℕ) (j : JobInfo) → (ended state detail j).id ≡ j.id
unfolding ended
ended-id state detail j = detailed-id detail _

ended_slot-Keeps :
    (state : JobState) (detail : List ℕ) (now : ℕ) → Keeps (ended_slot state detail now)
unfolding ended_slot
ended_slot-Keeps state detail now s u = elim (Bool-cases (s.job.repeat_sec == 0)) [
  | inl once ↦ absurd (ground (arith, once, u))
  | inr again ↦ rw again (ended-id state detail s.job)
]

-- The operations but begin.
pub data Operation : Type 0 where
  progressing : List ℕ → ℕ → ℕ → List ℕ → Operation
  pausing : List ℕ → List ℕ → ℕ → Operation
  finishing : List ℕ → JobState → List ℕ → Operation
  cancelling : List ℕ → Operation
  clearing : Operation

pub exec : Registry → ℕ → Operation → Registry
exec r now (progressing id count total detail) = progress r id count total detail
exec r now (pausing id detail seconds) = pause r id detail seconds
exec r now (finishing id state detail) = (finish r id state detail now).0
exec r now (cancelling id) = (request_cancel r id).0
exec r now clearing = clear r

abbrev cancelled_if_unfinished : JobInfo → JobInfo
cancelled_if_unfinished j = if is_unfinished j.state then asked j else j

-- What an operation does to a board.
abbrev pub meaning : Operation → Board → Board
meaning (progressing id count total detail) b =
    change id (λ j. some (progressed count total detail j)) b
meaning (pausing id detail seconds) b = change id (λ j. some (held_up detail seconds j)) b
meaning (finishing id state detail) b = change id (after_end state detail) b
meaning (cancelling id) b = change id (λ j. some (cancelled_if_unfinished j)) b
meaning clearing b = λ id. none

ended_slot-kept :
    (state : JobState) (detail : List ℕ) (now : ℕ) (s : Slot)
    → s.used ≡ true
    → job_of (kept (ended_slot state detail now) (some s)) ≡ after_end state detail s.job
unfolding ended_slot
ended_slot-kept state detail now s u = elim (Bool-cases (s.job.repeat_sec == 0)) [
  | inl once ↦ rw once refl
  | inr again ↦ rw (again, u) refl
]

finish-board :
    (r : Registry) (v : List ℕ) (state : JobState) (detail : List ℕ) (now : ℕ) (id : List ℕ)
    → IsValid r
    → board (finish r v state detail now).0 id ≡ change v (after_end state detail) (board r) id
unfolding finish
finish-board r v state detail now id ok = elim (Option-cases (find_slot v r.slots)) [
  | inl gone ↦
      rw (gone, finish)
        (unchanged-board r v (after_end state detail) (unfold board in rw gone refl) id)
  | inr (s, found) ↦
      rw (found, finish)
        (update-board r v (ended_slot state detail now) (after_end state detail)
          (ended_slot-Keeps state detail now) ok.distinct
          (λ s' u _. ended_slot-kept state detail now s' u) id)
]

cancel-board :
    (r : Registry) (v id : List ℕ)
    → IsValid r
    → board (request_cancel r v).0 id
      ≡ change v (λ j. some (cancelled_if_unfinished j)) (board r) id
unfolding request_cancel
cancel-board r v id ok = elim (Option-cases (find_slot v r.slots)) [
  | inl gone ↦
      rw (gone, request_cancel)
        (unchanged-board r v (λ j. some (cancelled_if_unfinished j)) (unfold board in rw gone refl)
          id)
  | inr (s, found) ↦ elim (Bool-cases (is_unfinished s.job.state)) [
    | inr over ↦
        rw (found, request_cancel)
          (rw over (
            unchanged-board r v (λ j. some (cancelled_if_unfinished j))
              (unfold board in rw found (rw over refl)) id))
    | inl open_still ↦
        rw (found, request_cancel)
          (rw open_still (
            update-board r v (λ s'. record s' { job = asked s'.job })
              (λ j. some (cancelled_if_unfinished j)) (λ s' _. refl) ok.distinct
              (λ s' u at_v.
                let same : s ≡ s' = cc (sym found ∙ at_v) in
                let open' : is_unfinished s'.job.state ≡ true =
                  ap (λ (y : Slot). is_unfinished y.job.state) (sym same) ∙ open_still in
                rw (u, open') refl)
              id))
  ]
]

clear-board : (ss : List Slot) (id : List ℕ) → find_slot id (clear_slots ss) ≡ none
unfolding find_slot clear_slots
clear-board [] id = refl
clear-board (s ∷ ss) id = clear-board ss id

pub exec-board :
    (r : Registry) (now : ℕ) (op : Operation) (id : List ℕ)
    → IsValid r
    → board (exec r now op) id ≡ meaning op (board r) id
unfolding exec
exec-board r now (progressing v count total detail) id ok =
    unfold progress in
    update-board r v (λ s. record s { job = progressed count total detail s.job })
      (λ j. some (progressed count total detail j)) (λ s _. progressed-id count total detail s.job)
      ok.distinct (λ s u _. rw u refl) id
exec-board r now (pausing v detail seconds) id ok =
    unfold pause in
    update-board r v (λ s. record s { job = held_up detail seconds s.job })
      (λ j. some (held_up detail seconds j)) (λ s _. held_up-id detail seconds s.job) ok.distinct
      (λ s u _. rw u refl) id
exec-board r now (finishing v state detail) id ok = finish-board r v state detail now id ok
exec-board r now (cancelling v) id ok = cancel-board r v id ok
exec-board r now clearing id ok = unfold clear board in ap job_of (clear-board r.slots id)

pub exec-IsValid : (r : Registry) (now : ℕ) (op : Operation) → IsValid r → IsValid (exec r now op)
unfolding exec progress pause finish request_cancel clear
exec-IsValid r now (progressing v count total detail) ok =
    update-IsValid r v _ (λ s _. progressed-id count total detail s.job) ok
exec-IsValid r now (pausing v detail seconds) ok =
    update-IsValid r v _ (λ s _. held_up-id detail seconds s.job) ok
exec-IsValid r now (finishing v state detail) ok = elim (Option-cases (find_slot v r.slots)) [
  | inl gone ↦ rw (gone, exec, finish) ok
  | inr (s, found) ↦
      rw (found, exec, finish) (update-IsValid r v _ (ended_slot-Keeps state detail now) ok)
]
exec-IsValid r now (cancelling v) ok = elim (Option-cases (find_slot v r.slots)) [
  | inl gone ↦ rw (gone, exec, request_cancel) ok
  | inr (s, found) ↦ elim (Bool-cases (is_unfinished s.job.state)) [
    | inr over ↦ rw (found, exec, request_cancel) (rw over ok)
    | inl open_still ↦
        rw (found, exec, request_cancel)
          (rw open_still
            (update-IsValid r v (λ s'. record s' { job = asked s'.job }) (λ s' _. refl) ok))
  ]
]
exec-IsValid r now clearing ok = record {
  size = length-clear_slots r.slots ∙ ok.size;
  distinct = Distinct-clear_slots r.slots;
}
