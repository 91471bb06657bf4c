-- ===== src/Core/Jobs/Starting.antt =====
-- What begin of the job registry does on the board.
use dhcpserver.Base.{
  ℕ, ◌≡◌, ◌⊎◌, inl, inr, refl, sym, ap, ◌∙◌, true, false, List, none, some, if◌then◌else◌, set,
  length-set, get_elem?, bytes_eq, bytes_eq_sound, arith, Bool-cases, Option-cases,
}
use dhcpserver.Core.Jobs.{
  Slot, Registry, Request, is_blank, holds, find_slot, slot_for, new_job, new_slot, begin,
}
use dhcpserver.Core.Jobs.Slots.{find_slot-set}
use dhcpserver.Core.Jobs.Updates.{Distinct-set, find_slot-at}
use dhcpserver.Core.Jobs.Search.{
  Chosen, own, unused, taken_over, AllUsed-at, slot_for-Chosen, slot_for-none,
}
use dhcpserver.Core.Jobs.Board.{IsValid, board, job_of, put, Begun, put_up, displaced, refused}
use dhcpserver.Core.Jobs.Refines.{Operation, exec, meaning, exec-IsValid, exec-board}

-- The registry with a new record in a slot.
abbrev pub placed : Registry → ℕ → Request → ℕ → Registry
placed r now q i = record r { slots = set r.slots i (new_slot q now) }

placed-IsValid :
    (r : Registry) (now : ℕ) (q : Request) (i : ℕ) (old : Slot)
    → IsValid r
    → get_elem? r.slots i ≡ some old
    → (find_slot q.id r.slots ≡ none) ⊎ (holds old q.id ≡ true)
    → IsValid (placed r now q i)
placed-IsValid r now q i old ok at_i o = record {
  size = length-set r.slots i (new_slot q now) ∙ ok.size;
  distinct = unfold new_job in Distinct-set r.slots i (new_slot q now) old ok.distinct at_i refl o;
}

pub placed-board :
    (r : Registry) (now : ℕ) (q : Request) (i : ℕ) (old : Slot) (id : List ℕ)
    → IsValid r
    → get_elem? r.slots i ≡ some old
    → (find_slot q.id r.slots ≡ none) ⊎ (holds old q.id ≡ true)
    → board (placed r now q i) id
      ≡ put (new_job q) (λ k. if holds old k then none else board r k) id
unfolding board new_job
placed-board r now q i old id ok at_i o =
    ap job_of (find_slot-set r.slots i (new_slot q now) old id ok.distinct at_i refl o)
    ∙ elim (Bool-cases (bytes_eq q.id id)) [
      | inl e ↦ rw e refl
      | inr e ↦ elim (Bool-cases (holds old id)) [ inl h ↦ rw (e, h) refl | inr h ↦ rw (e, h) refl ]
    ]

-- The record that a chosen slot gives up.
placed-Begun :
    (r : Registry) (search now : ℕ) (q : Request) (i : ℕ)
    → IsValid r
    → Chosen r.slots q.id i
    → IsValid (placed r now q i) × Begun r search q (placed r now q i) true
placed-Begun r search now q i ok (own old at_i h) = (
  placed-IsValid r now q i old ok at_i (inr h),
  put_up (λ id.
      placed-board r now q i old id ok at_i (inr h) ∙ elim (Bool-cases (bytes_eq q.id id)) [
        | inl e ↦ unfold new_job in rw e refl
        | inr e ↦
            let apart : holds old id ≡ false = elim (Bool-cases (holds old id)) [
              | inr n ↦ n
              | inl here ↦
                  let name = bytes_eq_sound old.job.id q.id (ground (arith, h)) in
                  absurd (ground (arith, ap (λ k. bytes_eq k id) (sym name), e, here))
            ] in
            unfold new_job in rw (e, apart) refl
      ]),
)
placed-Begun r search now q i ok (unused old at_i gone free) = (
  placed-IsValid r now q i old ok at_i (inl gone),
  put_up (λ id. placed-board r now q i old id ok at_i (inl gone) ∙ rw free refl),
)
placed-Begun r search now q i ok (taken_over old at_i gone all rests) =
    let used = AllUsed-at r.slots i old all at_i in
    let found = find_slot-at r.slots i old ok.distinct at_i used in
    (
      placed-IsValid r now q i old ok at_i (inl gone),
      displaced old.job (unfold board in rw found refl) rests (unfold board in rw gone refl) all
          (λ id. placed-board r now q i old id ok at_i (inl gone) ∙ rw used refl),
    )

begin-Begun :
    (r : Registry) (search now : ℕ) (q : Request)
    → IsValid r
    → IsValid (begin r search now q).0
      × Begun r search q (begin r search now q).0 (begin r search now q).1
unfolding begin
begin-Begun r search now q ok = elim (Bool-cases (is_blank q.id)) [
  | inl blank ↦ rw blank (ok, refused refl (inl blank))
  | inr named ↦ elim (Option-cases (slot_for r.slots search q.id)) [
    | inl full ↦
        let (gone, all_used, busy) = slot_for-none r.slots search q.id full in
        rw (named, full, begin)
          (ok, refused refl (inr (unfold board in rw gone refl, all_used, busy)))
    | inr (i, found) ↦
        rw (named, found, begin)
          (placed-Begun r search now q i ok (slot_for-Chosen r.slots search q.id i found))
  ]
]

-- The registry does on the board of its records what its operations promise. From a well-formed
-- registry, begin puts the new record up, displaces one of an operation that is not running when
-- every slot is taken, or refuses, and then the name is blank or every slot holds a busy record of
-- another operation; every other operation changes the record of its name as it says, removes a
-- record without a repeat at its end, and leaves all other names alone. The registry stays well
-- formed: an operation never has two records.
pub registry_refines :
    (r : Registry)
    → IsValid r
    → ((search now : ℕ) (q : Request)
        → IsValid (begin r search now q).0
          × Begun r search q (begin r search now q).0 (begin r search now q).1)
      × ((now : ℕ) (op : Operation)
          → IsValid (exec r now op)
            × ((id : List ℕ) → board (exec r now op) id ≡ meaning op (board r) id))
registry_refines r ok = (
  λ search now q. begin-Begun r search now q ok,
  λ now op. (exec-IsValid r now op ok, λ id. exec-board r now op id ok),
)
