-- ===== src/Core/Jobs/Examples.antt =====
-- The job registry at work.
use dhcpserver.Base.{
  ℕ, ◌+◌, ◌≡◌, refl, bytes_eq, true, false, List, [], ◌∷◌, none, some, arith, map,
}
use dhcpserver.Core.Jobs.{
  JobState, running, paused, done, records, JobInfo, Slot, Registry, Request, empty_job, init,
  begin, progress, finish, slot_for, index_of, unused_index, update_slot, find_slot, progressed,
  new_job, copied, sort_by_duration, insert_by_duration, ended_slot, ended, request_cancel,
  cancel_requested, contains, snapshot, percent,
}
use dhcpserver.Core.Jobs.Slots.{Distinct}
use dhcpserver.Core.Jobs.Search.{AllUsed}
use dhcpserver.Core.Jobs.Board.{IsValid, board, Begun}
use dhcpserver.Core.Jobs.Refines.{Operation, exec, meaning}
use dhcpserver.Core.Jobs.Starting.{registry_refines}
use dhcpserver.Core.Jobs.Faults.{AllUnfinished, begin_evicts_paused}

abbrev scan : Request
scan = record {
  id = b's' ∷ [];
  title_key = [];
  arg = [];
  total = 200;
  unit = records;
  repeat_sec = 0;
}

abbrev sweep : Request
sweep = record {
  id = b'w' ∷ [];
  title_key = [];
  arg = [];
  total = 0;
  unit = records;
  repeat_sec = 3600;
}

-- A registry with a scan half done and a sweep.
abbrev two_jobs : Registry
two_jobs = progress (begin (begin init 5 5 scan).0 7 7 sweep).0 scan.id 100 0 []

half_done : map percent (snapshot two_jobs 10) ≡ none ∷ some 50 ∷ []
unfolding init begin slot_for index_of unused_index progress update_slot progressed new_job snapshot
    copied sort_by_duration insert_by_duration percent bytes_eq
half_done = refl

-- At its end the scan leaves, the sweep stays until its next pass.
after_both_ends :
    (contains (finish two_jobs scan.id done [] 20).0 scan.id ≡ false)
    × (contains (finish two_jobs sweep.id done [] 20).0 sweep.id ≡ true)
unfolding init begin slot_for index_of unused_index progress update_slot find_slot progressed
    new_job finish ended_slot ended contains bytes_eq
after_both_ends = (refl, refl)

cancelled_once : cancel_requested (request_cancel two_jobs scan.id).0 scan.id ≡ true
unfolding init begin slot_for index_of unused_index progress update_slot find_slot progressed
    new_job request_cancel cancel_requested bytes_eq
cancelled_once = refl

init-IsValid : IsValid init
unfolding init Distinct find_slot
init-IsValid = record {
  size = refl;
  distinct = (
    λ u. refl,
    (λ u. refl, (λ u. refl, (λ u. refl, (λ u. refl, (λ u. refl, (λ u. refl, (λ u. refl, tt))))))),
  );
}

registry_refines_example :
    ((search now : ℕ) (q : Request)
      → IsValid (begin init search now q).0
        × Begun init search q (begin init search now q).0 (begin init search now q).1)
    × ((now : ℕ) (op : Operation)
        → IsValid (exec init now op)
          × ((id : List ℕ) → board (exec init now op) id ≡ meaning op (board init) id))
registry_refines_example = registry_refines init init-IsValid

abbrev job : ℕ → JobState → JobInfo
job name state = record empty_job { id = name ∷ []; state = state }

abbrev taken : ℕ → JobState → Slot
taken name state = record { job = job name state; used = true; started = 10 + name; finished = 0 }

-- Seven running operations and a paused one.
abbrev full : Registry
full = record {
  slots =
      taken 1 running
      ∷ taken 2 running
      ∷ taken 3 paused
      ∷ taken 4 running
      ∷ taken 5 running
      ∷ taken 6 running
      ∷ taken 7 running
      ∷ taken 8 running
      ∷ [];
  observed = false;
}

full-IsValid : IsValid full
unfolding Distinct find_slot bytes_eq
full-IsValid = record {
  size = refl;
  distinct = (
    λ u. refl,
    (λ u. refl, (λ u. refl, (λ u. refl, (λ u. refl, (λ u. refl, (λ u. refl, (λ u. refl, tt))))))),
  );
}

full-AllUsed : AllUsed full.slots
unfolding AllUsed
full-AllUsed = (refl, (refl, (refl, (refl, (refl, (refl, (refl, (refl, tt))))))))

full-AllUnfinished : AllUnfinished full.slots
unfolding AllUnfinished
full-AllUnfinished = (refl, (refl, (refl, (refl, (refl, (refl, (refl, (refl, tt))))))))

begin_evicts_paused_example :
    ((begin full 50 50 scan).1 ≡ true)
    × (victim : JobInfo) × (board full victim.id ≡ some victim)
    × (victim.state ≡ paused)
    × (board (begin full 50 50 scan).0 victim.id ≡ none)
begin_evicts_paused_example =
    begin_evicts_paused full 50 50 scan 2 (taken 3 paused) full-IsValid full-AllUsed
      full-AllUnfinished refl refl (omega arith) refl (unfold board find_slot bytes_eq in refl)
