-- ===== src/Core/Jobs.antt =====
-- src/core/JobRegistry.h and JobRegistry.cpp: the list of long-running operations. The four arrays
-- of the class are one list of slots; what the observer is told is a list of events. Times are
-- readings of the monotonic clock in milliseconds.
pub mod Slots
pub mod Updates
pub mod Search
pub mod Board
pub mod Refines
pub mod Starting
pub mod Faults
pub mod Examples
use dhcpserver.Base.{
  ℕ, zero, suc, ◌+◌, ◌-◌, ◌*◌, ◌/◌, ◌%◌, Bool, true, false, not, ◌&&◌, ◌||◌, List, [], ◌∷◌, ◌++◌,
  Option, none, some, ltb, leb, ◌==◌, if◌then◌else◌, length, set, replicate, bytes_eq, is_some,
  u32_mod,
}

pub data JobState : Type 0 where
  running paused done failed cancelled : JobState

pub data JobUnit : Type 0 where
  no_unit bytes records : JobUnit

pub record JobInfo : Type 0 where
  pub id : List ℕ
  pub title_key : List ℕ
  pub arg : List ℕ
  pub detail : List ℕ
  pub state : JobState
  pub done_units : ℕ
  pub total : ℕ
  pub unit : JobUnit
  pub duration_ms : ℕ
  pub cancel_requested : Bool
  pub repeat_sec : ℕ
  pub pause_sec : ℕ

-- JobInfo{}
abbrev pub empty_job : JobInfo
empty_job = record {
  id = [];
  title_key = [];
  arg = [];
  detail = [];
  state = running;
  done_units = 0;
  total = 0;
  unit = no_unit;
  duration_ms = 0;
  cancel_requested = false;
  repeat_sec = 0;
  pause_sec = 0;
}

abbrev pub is_running : JobState → Bool
is_running running = true
is_running _ = false

abbrev pub is_done : JobState → Bool
is_done done = true
is_done _ = false

-- Running or paused.
abbrev pub is_unfinished : JobState → Bool
is_unfinished running = true
is_unfinished paused = true
is_unfinished _ = false

-- percent, none for -1.
unfoldable pub percent : JobInfo → Option ℕ
percent j =
    if j.total == 0
    then none
    else if leb j.total j.done_units
    then some 100
    else some (j.done_units * 100 / j.total)

-- One place of the arrays jobs_, used_, started_ and finished_.
pub record Slot : Type 0 where
  pub job : JobInfo
  pub used : Bool
  pub started : ℕ
  pub finished : ℕ

abbrev pub empty_slot : Slot
empty_slot = record { job = empty_job; used = false; started = 0; finished = 0 }

-- kMaxJobs
abbrev pub max_jobs : ℕ
max_jobs = 8

pub record Registry : Type 0 where
  pub slots : List Slot
  pub observed : Bool

pub data JobEvent : Type 0 where
  job_started : JobInfo → JobEvent
  job_finished : JobInfo → JobEvent

unfoldable pub init : Registry
init = record { slots = replicate max_jobs empty_slot; observed = false }

-- setObserver
unfoldable pub set_observer : Bool → Registry → Registry
set_observer on r = record r { observed = on }

abbrev pub holds : Slot → List ℕ → Bool
holds s id = s.used && bytes_eq s.job.id id

-- The three loops of slotFor.
unfoldable pub index_of : List ℕ → List Slot → Option ℕ
index_of id [] = none
index_of id (s ∷ ss) =
    let later = elim (index_of id ss) as (λ _. Option ℕ) [ none ↦ none | some i ↦ some (i + 1) ] in
    if holds s id then some 0 else later

unfoldable pub unused_index : List Slot → Option ℕ
unused_index [] = none
unused_index (s ∷ ss) =
    let later = elim (unused_index ss) as (λ _. Option ℕ) [ none ↦ none | some i ↦ some (i + 1) ] in
    if s.used then later else some 0

unfoldable pub oldest : List Slot → ℕ → Option ℕ → ℕ → Option ℕ
oldest [] i best best_time = best
oldest (s ∷ ss) i best best_time =
    let takes = not (is_running s.job.state) && leb s.started best_time in
    oldest ss (i + 1) (if takes then some i else best) (if takes then s.started else best_time)

-- slotFor, none for kMaxJobs.
unfoldable pub slot_for : List Slot → ℕ → List ℕ → Option ℕ
slot_for slots now id = elim (index_of id slots) [
  | some i ↦ some i
  | none ↦ elim (unused_index slots) [ some i ↦ some i | none ↦ oldest slots 0 none now ]
]

-- The arguments of begin.
pub record Request : Type 0 where
  pub id : List ℕ
  pub title_key : List ℕ
  pub arg : List ℕ
  pub total : ℕ
  pub unit : JobUnit
  pub repeat_sec : ℕ

unfoldable pub new_job : Request → JobInfo
new_job q = record {
  id = q.id;
  title_key = q.title_key;
  arg = q.arg;
  detail = [];
  state = running;
  done_units = 0;
  total = q.total;
  unit = q.unit;
  duration_ms = 0;
  cancel_requested = false;
  repeat_sec = q.repeat_sec;
  pause_sec = 0;
}

abbrev pub new_slot : Request → ℕ → Slot
new_slot q now = record { job = new_job q; used = true; started = now; finished = 0 }

abbrev pub is_blank : List ℕ → Bool
is_blank [] = true
is_blank (c ∷ cs) = false

-- begin: `search` is the clock's reading in slotFor. The answer is whether the operation was
-- recorded.
unfoldable pub begin : Registry → ℕ → ℕ → Request → Registry × Bool × List JobEvent
begin r search now q =
    if is_blank q.id then (r, false, []) else elim (slot_for r.slots search q.id) [
      | none ↦ (r, false, [])
      | some i ↦ (
        record r { slots = set r.slots i (new_slot q now) },
        true,
        if r.observed then job_started (new_job q) ∷ [] else [],
      )
    ]

-- The loops over the slots that stop at the record of an operation.
unfoldable pub update_slot : List ℕ → (Slot → Slot) → List Slot → List Slot
update_slot id f [] = []
update_slot id f (s ∷ ss) = if holds s id then f s ∷ ss else s ∷ update_slot id f ss

unfoldable pub find_slot : List ℕ → List Slot → Option Slot
find_slot id [] = none
find_slot id (s ∷ ss) = if holds s id then some s else find_slot id ss

abbrev pub detailed : List ℕ → JobInfo → JobInfo
detailed [] j = j
detailed (c ∷ cs) j = record j { detail = c ∷ cs }

unfoldable pub progressed : ℕ → ℕ → List ℕ → JobInfo → JobInfo
progressed count total detail j = detailed detail (record j {
  state = running;
  done_units = count;
  pause_sec = 0;
  total = if ltb 0 total then total else j.total;
})

unfoldable pub progress : Registry → List ℕ → ℕ → ℕ → List ℕ → Registry
progress r id count total detail = record r {
  slots = update_slot id (λ s. record s { job = progressed count total detail s.job }) r.slots;
}

unfoldable pub held_up : List ℕ → ℕ → JobInfo → JobInfo
held_up detail seconds j = detailed detail (record j { state = paused; pause_sec = seconds })

-- pause
unfoldable pub pause : Registry → List ℕ → List ℕ → ℕ → Registry
pause r id detail seconds = record r {
  slots = update_slot id (λ s. record s { job = held_up detail seconds s.job }) r.slots;
}

unfoldable pub ended : JobState → List ℕ → JobInfo → JobInfo
ended state detail j =
    let j' = detailed detail (record j { state = state; pause_sec = 0 }) in
    record j' { done_units = if ltb 0 j.total && is_done state then j.total else j.done_units }

-- The duration in a uint32_t, 0 when the clock went back.
abbrev pub lasted : ℕ → ℕ → ℕ
lasted from to = (to - from) % u32_mod

-- What the observer is told of a record that ends.
unfoldable pub ending : JobState → List ℕ → ℕ → Slot → JobInfo
ending state detail now s =
    let j = ended state detail s.job in record j { duration_ms = lasted s.started now }

-- A record without a repeat is cleared.
unfoldable pub ended_slot : JobState → List ℕ → ℕ → Slot → Slot
ended_slot state detail now s =
    if s.job.repeat_sec == 0
    then empty_slot
    else record s { job = ended state detail s.job; finished = now }

unfoldable pub finish : Registry → List ℕ → JobState → List ℕ → ℕ → Registry × List JobEvent
finish r id state detail now = elim (find_slot id r.slots) [
  | none ↦ (r, [])
  | some s ↦ (
    record r { slots = update_slot id (ended_slot state detail now) r.slots },
    if r.observed then job_finished (ending state detail now s) ∷ [] else [],
  )
]

abbrev pub asked : JobInfo → JobInfo
asked j = record j { cancel_requested = true }

-- requestCancel
unfoldable pub request_cancel : Registry → List ℕ → Registry × Bool
request_cancel r id = elim (find_slot id r.slots) [
  | none ↦ (r, false)
  | some s ↦
      if is_unfinished s.job.state
      then (
        record r { slots = update_slot id (λ s'. record s' { job = asked s'.job }) r.slots },
        true,
      )
      else (r, false)
]

-- cancelRequested
unfoldable pub cancel_requested : Registry → List ℕ → Bool
cancel_requested r id = elim (find_slot id r.slots) [
  | none ↦ false
  | some s ↦ s.job.cancel_requested
]

unfoldable pub contains : Registry → List ℕ → Bool
contains r id = is_some (find_slot id r.slots)

unfoldable pub copied : List Slot → ℕ → List JobInfo
copied [] now = []
copied (s ∷ ss) now =
    let rest = copied ss now in
    let j = s.job in
    let end_time = if is_unfinished j.state then now else s.finished in
    if s.used then record j { duration_ms = lasted s.started end_time } ∷ rest else rest

-- std::sort by the duration; the order of equal durations, which it leaves open, is that of the
-- slots.
unfoldable pub insert_by_duration : JobInfo → List JobInfo → List JobInfo
insert_by_duration j [] = j ∷ []
insert_by_duration j (k ∷ ks) =
    if leb j.duration_ms k.duration_ms then j ∷ k ∷ ks else k ∷ insert_by_duration j ks

unfoldable pub sort_by_duration : List JobInfo → List JobInfo
sort_by_duration [] = []
sort_by_duration (j ∷ js) = insert_by_duration j (sort_by_duration js)

unfoldable pub snapshot : Registry → ℕ → List JobInfo
snapshot r now = sort_by_duration (copied r.slots now)

unfoldable pub clear_slots : List Slot → List Slot
clear_slots [] = []
clear_slots (s ∷ ss) = empty_slot ∷ clear_slots ss

unfoldable pub clear : Registry → Registry
clear r = record r { slots = clear_slots r.slots }
