-- ===== src/Net/ShellPath/Moves.antt =====
-- Where the SSH shell can go.
use dhcpserver.Base.{
  is_empty, pieces, ℕ, zero, suc, ◌≡◌, inl, inr, refl, sym, ap, subst, ◌∙◌, true, false, List, [],
  ◌∷◌, ◌++◌, some, if◌then◌else◌, length, append-nil, drop, bytes_eq, arith, Bool-cases,
}
use dhcpserver.Storage.Path.{components, dot_dot, joined}
use dhcpserver.Storage.Path.Segments.{components-joined}
use dhcpserver.Net.ShellPath.{
  fat, sdcard, begins_with, any_begins, starts_with_volume, first_volume, volume_of,
  has_control_byte, leaves_volume, Resolved, resolved, refused, full_texts, standing, pop_back,
  fold_part, fold_parts, walked, or_first, is_absolute, resolve, moved, change_to, first_directory,
}
use dhcpserver.Net.ShellPath.Inside.{
  AllPlain, AllPlain-AllSlashFree, AllPlain-pop_back, IsVolume, Inside, walked-Inside, walked-shape,
}

-- The volume of a path inside the volumes, and its components.
volume_of-inside :
    (v : List ℕ) (parts : List (List ℕ)) → IsVolume v → volume_of (v ++ joined parts) ≡ v
unfolding IsVolume volume_of first_volume begins_with bytes_eq joined
volume_of-inside v [] (inl e) = rw e refl
volume_of-inside v (p ∷ ps) (inl e) = rw e refl
volume_of-inside v [] (inr e) = rw e refl
volume_of-inside v (p ∷ ps) (inr e) = rw e refl

full_texts-AllPlain : (ps : List (List ℕ)) → AllPlain ps → full_texts ps ≡ ps
unfolding full_texts AllPlain
full_texts-AllPlain [] h = refl
full_texts-AllPlain (p ∷ ps) (here, h) =
    let full : is_empty p ≡ false = ground (arith, here) in
    rw full (ap (λ l. p ∷ l) (full_texts-AllPlain ps h))

standing-inside :
    (v : List ℕ) (parts : List (List ℕ))
    → IsVolume v
    → AllPlain parts
    → standing v (v ++ joined parts) ≡ parts
unfolding standing full_texts
standing-inside v parts known h =
    ap (λ l. full_texts (components l)) (behind v known)
    ∙ ap full_texts (components-joined parts (AllPlain-AllSlashFree parts h))
    ∙ full_texts-AllPlain parts h
  where
    behind : (w : List ℕ) → IsVolume w → drop (length w) (w ++ joined parts) ≡ joined parts
    behind w k = unfold IsVolume in elim k [ inl e ↦ rw e refl | inr e ↦ rw e refl ]

or_first-IsVolume : (v : List ℕ) → IsVolume v → or_first v ≡ v
unfolding IsVolume
or_first-IsVolume v (inl e) = rw e refl
or_first-IsVolume v (inr e) = rw e refl

volume_of-IsVolume : (path : List ℕ) → starts_with_volume path ≡ true → IsVolume (volume_of path)
unfolding IsVolume volume_of first_volume starts_with_volume any_begins
volume_of-IsVolume path h = elim (Bool-cases (begins_with fat path)) [
  | inl on_fat ↦ rw on_fat (inl refl)
  | inr off_fat ↦ elim (Bool-cases (begins_with sdcard path)) [
    | inl on_card ↦ rw (off_fat, on_card) (inr refl)
    | inr off_card ↦ absurd (ground (arith, off_fat, off_card, h))
  ]
]

has_control_byte-drop :
    (n : ℕ) (text : List ℕ) → has_control_byte text ≡ false → has_control_byte (drop n text) ≡ false
unfolding has_control_byte
has_control_byte-drop zero text h = h
has_control_byte-drop (suc n) [] h = h
has_control_byte-drop (suc n) (c ∷ cs) h = has_control_byte-drop n cs (ground (arith, h))

-- A relative name is read from the current directory.
resolve-relative :
    (current typed : List ℕ) (here : Inside current)
    → is_empty typed ≡ false
    → has_control_byte typed ≡ false
    → is_absolute typed ≡ false
    → resolve current typed ≡ walked here.volume here.parts typed
unfolding resolve
resolve-relative current typed here full clean relative =
    let home : or_first (volume_of current) ≡ here.volume =
      ap (λ p. or_first (volume_of p)) here.shape
      ∙ ap or_first (volume_of-inside here.volume here.parts here.known)
      ∙ or_first-IsVolume here.volume here.known in
    let place : standing here.volume current ≡ here.parts =
      ap (standing here.volume) here.shape
      ∙ standing-inside here.volume here.parts here.known here.plain in
    rw (full, clean, relative, home, place) refl

pub resolve-Inside :
    (current typed out : List ℕ)
    → Inside current
    → resolve current typed ≡ resolved out
    → Inside out
unfolding resolve
resolve-Inside current typed out here e = elim (Bool-cases (is_empty typed)) [
  | inl empty ↦ let same : current ≡ out = ground (arith, empty, e) in subst Inside same here
  | inr full ↦ elim (Bool-cases (has_control_byte typed)) [
    | inl control ↦ absurd (ground (arith, full, control, e))
    | inr clean ↦ elim (Bool-cases (is_absolute typed)) [
      | inr relative ↦
          walked-Inside here.volume here.parts typed out here.known here.plain clean
            (sym (resolve-relative current typed here full clean relative) ∙ e)
      | inl absolute ↦ elim (Bool-cases (starts_with_volume typed)) [
        | inr elsewhere ↦ absurd (ground (arith, full, clean, absolute, elsewhere, e))
        | inl on_volume ↦
            walked-Inside (volume_of typed) [] (drop (length (volume_of typed)) typed) out
              (volume_of-IsVolume typed on_volume) (unfold AllPlain in tt)
              (has_control_byte-drop (length (volume_of typed)) typed clean)
              (ground (arith, full, clean, absolute, on_volume, e))
      ]
    ]
  ]
]

change_to-Inside : (current typed : List ℕ) → Inside current → Inside (change_to current typed).0
unfolding change_to
change_to-Inside current typed here = elim (Bool-cases (is_empty typed)) [
  | inl empty ↦
      let home : or_first (volume_of current) ≡ here.volume =
        ap (λ p. or_first (volume_of p)) here.shape
        ∙ ap or_first (volume_of-inside here.volume here.parts here.known)
        ∙ or_first-IsVolume here.volume here.known in
      rw (empty, home)
        (record {
          volume = here.volume;
          parts = [];
          known = here.known;
          shape = unfold joined in sym (append-nil here.volume);
          plain = unfold AllPlain in tt;
        })
  | inr full ↦ rw full (after (resolve current typed) refl)
]
  where
    after : (r : Resolved) → resolve current typed ≡ r → Inside (moved current r).0
    after (refused why) e = here
    after (resolved target) e = elim (Bool-cases (is_empty target)) [
      | inl empty ↦ rw empty here
      | inr full ↦ rw full (resolve-Inside current typed target here e)
    ]

-- The current directory after a sequence of names given to the command cd.
unfoldable pub moves : List (List ℕ) → List ℕ → List ℕ
moves [] current = current
moves (typed ∷ rest) current = moves rest (change_to current typed).0

moves-Inside_from :
    (names : List (List ℕ)) (current : List ℕ) → Inside current → Inside (moves names current)
unfolding moves
moves-Inside_from [] current here = here
moves-Inside_from (typed ∷ rest) current here =
    moves-Inside_from rest (change_to current typed).0 (change_to-Inside current typed here)

-- Whatever names a session gives to cd, its current directory stays inside the volumes, and so does
-- every path that a further name is resolved to.
pub moves-Inside :
    (names : List (List ℕ)) (typed out : List ℕ)
    → resolve (moves names first_directory) typed ≡ resolved out
    → Inside (moves names first_directory) × Inside out
moves-Inside names typed out e =
    let here = moves-Inside_from names first_directory (record {
      volume = fat;
      parts = [];
      known = unfold IsVolume in inl refl;
      shape = unfold joined in refl;
      plain = unfold AllPlain in tt;
    }) in
    (here, resolve-Inside (moves names first_directory) typed out here e)

fold_up :
    (parts : List (List ℕ))
    → is_empty parts ≡ false
    → fold_parts (components dot_dot) parts ≡ some (pop_back parts)
unfolding fold_parts fold_part pieces bytes_eq
fold_up [] below = absurd (cc below)
fold_up (p ∷ ps) below = refl

up_from_root : (v : List ℕ) → walked v [] dot_dot ≡ refused leaves_volume
unfolding walked fold_parts fold_part pieces bytes_eq
up_from_root v = refl

full_path : (v rest : List ℕ) → IsVolume v → is_empty (v ++ rest) ≡ false
unfolding IsVolume
full_path v rest (inl e) = rw e refl
full_path v rest (inr e) = rw e refl

-- The directory above one inside a volume.
abbrev pub above : (current : List ℕ) → Inside current → List ℕ
above current here = here.volume ++ joined (pop_back here.parts)

-- From a directory inside a volume, ".." is the directory above it, and cd goes there; in the root of
-- the volume it is refused, and cd stays where it is.
pub resolve_up :
    (current : List ℕ) (here : Inside current)
    → (resolve current dot_dot
        ≡ (if is_empty here.parts then refused leaves_volume else resolved (above current here)))
      × (change_to current dot_dot
          ≡ (if is_empty here.parts then (current, false) else (above current here, true)))
unfolding change_to
resolve_up current here =
    let way = resolve-relative current dot_dot here refl (unfold has_control_byte in refl) refl in
    elim (Bool-cases (is_empty here.parts)) [
      | inl at_root ↦
          let stays =
            way
            ∙ ap (λ ps. walked here.volume ps dot_dot) (no_parts here.parts at_root)
            ∙ up_from_root here.volume in
          rw at_root (stays, ap (moved current) stays)
      | inr below ↦
          let goes =
            way
            ∙ walked-shape here.volume here.parts (pop_back here.parts) dot_dot here.known
                (AllPlain-pop_back here.parts here.plain) (fold_up here.parts below) in
          rw below (
            goes,
            ap (moved current) goes
                ∙ rw (full_path here.volume (joined (pop_back here.parts)) here.known) refl,
          )
    ]
  where
    no_parts : (ps : List (List ℕ)) → is_empty ps ≡ true → ps ≡ []
    no_parts [] h = refl
    no_parts (p ∷ ps) h = absurd (cc h)
