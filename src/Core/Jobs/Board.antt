-- ===== src/Core/Jobs/Board.antt =====
-- The job registry as a board from names to records, the view of the scheduler page and of the API.
use dhcpserver.Base.{
  ℕ, ◌≡◌, ◌⊎◌, inl, inr, refl, sym, ap, subst, ◌∙◌, Bool, true, false, List, Option, none, some,
  ◌==◌, if◌then◌else◌, length, bytes_eq, bytes_eq_sound, arith, Bool-cases, Option-cases,
}
use dhcpserver.Core.Jobs.{
  JobState, JobInfo, Slot, Registry, Request, max_jobs, is_running, is_blank, find_slot,
  update_slot, new_job, ended,
}
use dhcpserver.Core.Jobs.Slots.{Distinct}
use dhcpserver.Core.Jobs.Updates.{
  find_slot-update_slot, Distinct-update_slot, find_slot-holds, length-update_slot, kept, Keeps,
}
use dhcpserver.Core.Jobs.Search.{AllUsed, AllBusy}

-- The arrays have their fixed size, and an operation has one record at most.
pub record IsValid (r : Registry) : Type 0 where
  pub size : length r.slots ≡ max_jobs
  pub distinct : Distinct r.slots

abbrev pub Board : Type 0
Board = List ℕ → Option JobInfo

abbrev pub job_of : Option Slot → Option JobInfo
job_of none = none
job_of (some s) = some s.job

unfoldable pub board : Registry → Board
board r id = job_of (find_slot id r.slots)

-- What the operations mean on a board.
abbrev pub put : JobInfo → Board → Board
put j b id = if bytes_eq j.id id then some j else b id

abbrev pub drop : List ℕ → Board → Board
drop v b id = if bytes_eq v id then none else b id

abbrev pub changed : (JobInfo → Option JobInfo) → Option JobInfo → Option JobInfo
changed f none = none
changed f (some j) = f j

abbrev pub change : List ℕ → (JobInfo → Option JobInfo) → Board → Board
change v f b id = if bytes_eq v id then changed f (b id) else b id

-- A record without a repeat leaves the board when its operation ends.
abbrev pub after_end : JobState → List ℕ → JobInfo → Option JobInfo
after_end state detail j = if j.repeat_sec == 0 then none else some (ended state detail j)

-- The outcomes of begin: the record is put up, in place of the operation's own or besides the
-- others; it displaces a record of an operation that is not running; or it is refused, when the
-- name is blank or every place holds a record of another operation that is busy.
pub data Begun (r : Registry) (search : ℕ) (q : Request) (r' : Registry) : Bool → Type 0 where
  put_up : ((id : List ℕ) → board r' id ≡ put (new_job q) (board r) id) → Begun r search q r' true
  displaced :
      (victim : JobInfo)
      → board r victim.id ≡ some victim
      → is_running victim.state ≡ false
      → board r q.id ≡ none
      → AllUsed r.slots
      → ((id : List ℕ) → board r' id ≡ put (new_job q) (drop victim.id (board r)) id)
      → Begun r search q r' true
  refused :
      r' ≡ r
      → (is_blank q.id ≡ true) ⊎ ((board r q.id ≡ none) × AllUsed r.slots × AllBusy search r.slots)
      → Begun r search q r' false

pub update-board :
    (r : Registry) (v : List ℕ) (f : Slot → Slot) (g : JobInfo → Option JobInfo)
    → Keeps f
    → Distinct r.slots
    → ((s : Slot)
        → s.used ≡ true
        → find_slot v r.slots ≡ some s
        → job_of (kept f (some s)) ≡ g s.job)
    → (id : List ℕ)
    → board (record r { slots = update_slot v f r.slots }) id ≡ change v g (board r) id
unfolding board
update-board r v f g k d h id =
    let at_id = find_slot-update_slot v f r.slots id k d in
    elim (Bool-cases (bytes_eq v id)) [
      | inr e ↦ ap job_of at_id ∙ rw e refl
      | inl e ↦ elim (Option-cases (find_slot id r.slots)) [
        | inl gone ↦ ap job_of at_id ∙ rw (e, gone) refl
        | inr (s, found) ↦
            ap job_of at_id
            ∙ rw (e, found)
                (h s (ground (arith, find_slot-holds id r.slots s found))
                  (ap (λ n. find_slot n r.slots) (bytes_eq_sound v id e) ∙ found))
      ]
    ]

pub update-IsValid :
    (r : Registry) (v : List ℕ) (f : Slot → Slot)
    → Keeps f
    → IsValid r
    → IsValid (record r { slots = update_slot v f r.slots })
update-IsValid r v f k ok = record {
  size = length-update_slot v f r.slots ∙ ok.size;
  distinct = Distinct-update_slot v f r.slots k ok.distinct;
}

-- A change that the record of an operation, if it has one, does not show.
pub unchanged-board :
    (r : Registry) (v : List ℕ) (g : JobInfo → Option JobInfo)
    → changed g (board r v) ≡ board r v
    → (id : List ℕ) → board r id ≡ change v g (board r) id
unchanged-board r v g h id = elim (Bool-cases (bytes_eq v id)) [
  | inr e ↦ rw e refl
  | inl e ↦ rw e (subst (λ n. board r n ≡ changed g (board r n)) (bytes_eq_sound v id e) (sym h))
]
