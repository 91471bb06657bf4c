-- ===== src/Storage/Path/Segments.antt =====
-- Cutting a path into its segments and putting it together again.
use dhcpserver.Base.{
  is_empty, pieces, pieces-free, pieces-append_sep, is_free, ℕ, ◌+◌, ◌≤◌, ◌≡◌, inl, inr, refl, sym,
  ap, subst, ◌∙◌, Bool, true, false, ◌||◌, List, [], ◌∷◌, ◌++◌, none, some, ltb, length,
  length-append, append_assoc, append-nil, bytes_eq, arith, Bool-cases, Option-cases,
}
use dhcpserver.Storage.Path.{
  max_depth, dot, dot_dot, is_valid_char, all_valid, is_valid_name, components, take_segment, walk,
  joined,
}

unfoldable pub AllNames : List (List ℕ) → Type 0
AllNames [] = Unit {0}
AllNames (s ∷ ss) = (is_valid_name s ≡ true) × AllNames ss

pub AllNames-append : (ss ts : List (List ℕ)) → AllNames ss → AllNames ts → AllNames (ss ++ ts)
unfolding AllNames
AllNames-append [] ts h k = k
AllNames-append (s ∷ ss) ts (here, h) k = (here, AllNames-append ss ts h k)

-- A name is text without slashes, and neither "." nor "..".
pub is_valid_name-all_valid : (name : List ℕ) → is_valid_name name ≡ true → all_valid name ≡ true
unfolding is_valid_name
is_valid_name-all_valid name h = ground (arith, h)

pub is_valid_name-ne_empty : (name : List ℕ) → is_valid_name name ≡ true → is_empty name ≡ false
unfolding is_valid_name
is_valid_name-ne_empty name h = ground (arith, h)

is_valid_name-no_dots :
    (name : List ℕ)
    → is_valid_name name ≡ true
    → (bytes_eq name dot ≡ false) × (bytes_eq name dot_dot ≡ false)
unfolding is_valid_name
is_valid_name-no_dots name h = (ground (arith, h), ground (arith, h))

take_segment-name :
    (seg : List ℕ) (segments : List (List ℕ))
    → is_valid_name seg ≡ true
    → take_segment seg segments ≡ some (segments ++ (seg ∷ []))
unfolding take_segment
take_segment-name seg segments h =
    let (no_dot, no_dots) = is_valid_name-no_dots seg h in
    rw (is_valid_name-ne_empty seg h, no_dot, no_dots, h) refl

abbrev pub slash_free : List ℕ → Bool
slash_free text = is_free b'/' text

all_valid-slash_free : (name : List ℕ) → all_valid name ≡ true → slash_free name ≡ true
unfolding all_valid is_valid_char
all_valid-slash_free [] h = refl
all_valid-slash_free (c ∷ cs) h =
    let others : all_valid cs ≡ true = ground (arith, h) in
    ground (arith, h, all_valid-slash_free cs others)

unfoldable pub AllSlashFree : List (List ℕ) → Type 0
AllSlashFree [] = Unit {0}
AllSlashFree (s ∷ ss) = (slash_free s ≡ true) × AllSlashFree ss

pub AllNames-AllSlashFree : (ss : List (List ℕ)) → AllNames ss → AllSlashFree ss
unfolding AllNames AllSlashFree
AllNames-AllSlashFree [] h = tt
AllNames-AllSlashFree (s ∷ ss) (here, h) =
    (all_valid-slash_free s (is_valid_name-all_valid s here), AllNames-AllSlashFree ss h)

components-first :
    (seg : List ℕ) (rest : List (List ℕ))
    → slash_free seg ≡ true
    → AllSlashFree rest
    → components (seg ++ joined rest) ≡ seg ∷ rest
unfolding AllSlashFree joined
components-first seg [] h k = ap components (append-nil seg) ∙ pieces-free b'/' seg h
components-first seg (r ∷ rs) h (here, k) =
    pieces-append_sep b'/' seg (r ++ joined rs) h ∙ ap (λ l. seg ∷ l) (components-first r rs here k)

-- The components of texts that were joined are the texts, behind an empty one.
pub components-joined :
    (texts : List (List ℕ)) → AllSlashFree texts → components (joined texts) ≡ [] ∷ texts
unfolding AllSlashFree joined pieces
components-joined [] h = refl
components-joined (s ∷ ss) (here, h) =
    ap (λ (l : List (List ℕ)). [] ∷ l) (components-first s ss here h)

walk-next :
    (seg : List ℕ) (rest segments longer : List (List ℕ))
    → take_segment seg segments ≡ some longer
    → length longer ≤ max_depth
    → walk (seg ∷ rest) segments ≡ walk rest longer
unfolding walk
walk-next seg rest segments longer taken fits =
    let shallow : ltb max_depth (length longer) ≡ false = ground arith in
    rw (taken, shallow, walk) refl

-- The walk over names keeps them all, up to the depth.
pub walk-names :
    (names segments : List (List ℕ))
    → AllNames names
    → length segments + length names ≤ max_depth
    → walk names segments ≡ some (segments ++ names)
unfolding AllNames
walk-names [] segments h fits =
    unfold walk in ap (λ (l : List (List ℕ)). some l) (sym (append-nil segments))
walk-names (n ∷ ns) segments (here, h) fits =
    let more = length-append segments (n ∷ []) in
    walk-next n ns segments (segments ++ (n ∷ [])) (take_segment-name n segments here)
      (omega (arith, more))
    ∙ walk-names ns (segments ++ (n ∷ [])) h (omega (arith, more))
    ∙ ap (λ (l : List (List ℕ)). some l) (append_assoc segments (n ∷ []) ns)

-- What the walk keeps are names, not more than the depth.
take_segment-AllNames :
    (seg : List ℕ) (segments longer : List (List ℕ))
    → AllNames segments
    → take_segment seg segments ≡ some longer
    → AllNames longer
unfolding take_segment AllNames
take_segment-AllNames seg segments longer h e =
    elim (Bool-cases (is_empty seg || bytes_eq seg dot)) [
      | inl skip ↦ let same : segments ≡ longer = ground (arith, skip, e) in subst AllNames same h
      | inr text ↦ elim (Bool-cases (bytes_eq seg dot_dot)) [
        | inl up ↦ absurd (ground (arith, text, up, e))
        | inr down ↦ elim (Bool-cases (is_valid_name seg)) [
          | inr bad ↦ absurd (ground (arith, text, down, bad, e))
          | inl name ↦
              let same : segments ++ (seg ∷ []) ≡ longer = ground (arith, text, down, name, e) in
              subst AllNames same (AllNames-append segments (seg ∷ []) h (name, tt))
        ]
      ]
    ]

pub walk-AllNames :
    (texts segments kept : List (List ℕ))
    → AllNames segments
    → length segments ≤ max_depth
    → walk texts segments ≡ some kept
    → AllNames kept × (length kept ≤ max_depth)
unfolding walk
walk-AllNames [] segments kept h fits e =
    let same : segments ≡ kept = cc e in
    subst (λ l. AllNames l × (length l ≤ max_depth)) same (h, fits)
walk-AllNames (seg ∷ rest) segments kept h fits e =
    elim (Option-cases (take_segment seg segments)) [
      | inl gone ↦ absurd (ground (arith, gone, e))
      | inr (longer, taken) ↦ elim (Bool-cases (ltb max_depth (length longer))) [
        | inl deep ↦ absurd (ground (arith, taken, deep, e))
        | inr shallow ↦
            walk-AllNames rest longer kept (take_segment-AllNames seg segments longer h taken)
              (ground (arith, shallow)) (ground (arith, taken, shallow, e))
      ]
    ]

-- The walk refuses a text "..".
pub walk-dot_dot :
    (before after segments : List (List ℕ)) → walk (before ++ (dot_dot ∷ after)) segments ≡ none
unfolding walk
walk-dot_dot [] after segments = unfold take_segment bytes_eq in refl
walk-dot_dot (seg ∷ before) after segments = elim (Option-cases (take_segment seg segments)) [
  | inl gone ↦ rw (gone, walk) refl
  | inr (longer, taken) ↦ elim (Bool-cases (ltb max_depth (length longer))) [
    | inl deep ↦ rw (taken, deep, walk) refl
    | inr shallow ↦ rw (taken, shallow, walk) (walk-dot_dot before after longer)
  ]
]
