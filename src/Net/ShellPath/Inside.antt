-- ===== src/Net/ShellPath/Inside.antt =====
-- The paths inside the volumes of the SSH shell, and the walk that stays among them.
use dhcpserver.Base.{
  is_empty, pieces, lengthen, ℕ, ◌≡◌, ◌⊎◌, inl, inr, refl, sym, ap, subst, ◌∙◌, Bool, true, false,
  not, ◌&&◌, ◌||◌, List, [], ◌∷◌, ◌++◌, some, ltb, ◌==◌, append_assoc, append-nil, bytes_eq, arith,
  Bool-cases, Option-cases,
}
use dhcpserver.Storage.Path.{last_char, components, dot, dot_dot, joined}
use dhcpserver.Storage.Path.Segments.{slash_free, AllSlashFree}
use dhcpserver.Net.ShellPath.{
  fat, sdcard, has_control_byte, trimmed_end, trimmed_slashes, resolved, pop_back, fold_part,
  fold_parts, append_parts, walked,
}

-- The text of one component: no slash, no control byte.
abbrev pub is_clean : List ℕ → Bool
is_clean part = slash_free part && not (has_control_byte part)

-- A file or a directory: clean text that is not "." or "..".
abbrev pub is_plain : List ℕ → Bool
is_plain part =
    not (is_empty part || bytes_eq part dot) && not (bytes_eq part dot_dot) && is_clean part

unfoldable pub AllClean : List (List ℕ) → Type 0
AllClean [] = Unit {0}
AllClean (p ∷ ps) = (is_clean p ≡ true) × AllClean ps

unfoldable pub AllPlain : List (List ℕ) → Type 0
AllPlain [] = Unit {0}
AllPlain (p ∷ ps) = (is_plain p ≡ true) × AllPlain ps

unfoldable pub IsVolume : List ℕ → Type 0
IsVolume v = (v ≡ fat) ⊎ (v ≡ sdcard)

-- A volume with a list of files and directories behind it.
pub record Inside (path : List ℕ) : Type 0 where
  pub volume : List ℕ
  pub parts : List (List ℕ)
  pub known : IsVolume volume
  pub shape : path ≡ volume ++ joined parts
  pub plain : AllPlain parts

pub AllPlain-AllSlashFree : (ps : List (List ℕ)) → AllPlain ps → AllSlashFree ps
unfolding AllPlain AllSlashFree
AllPlain-AllSlashFree [] h = tt
AllPlain-AllSlashFree (p ∷ ps) (here, h) = (ground (arith, here), AllPlain-AllSlashFree ps h)

pub AllPlain-append :
    (ps : List (List ℕ)) (p : List ℕ) → AllPlain ps → is_plain p ≡ true → AllPlain (ps ++ (p ∷ []))
unfolding AllPlain
AllPlain-append [] p h k = (k, tt)
AllPlain-append (q ∷ ps) p (here, h) k = (here, AllPlain-append ps p h k)

pub AllPlain-pop_back : (ps : List (List ℕ)) → AllPlain ps → AllPlain (pop_back ps)
unfolding AllPlain
AllPlain-pop_back [] h = tt
AllPlain-pop_back (p ∷ []) h = tt
AllPlain-pop_back (p ∷ q ∷ ps) (here, h) = (here, AllPlain-pop_back (q ∷ ps) h)

-- The components of text without control bytes.
lengthen-AllClean :
    (c : ℕ) (ps : List (List ℕ))
    → (c == b'/') ≡ false
    → ltb c 32 ≡ false
    → AllClean ps
    → AllClean (lengthen c ps)
unfolding AllClean has_control_byte
lengthen-AllClean c [] s k h = tt
lengthen-AllClean c (p ∷ ps) s k (here, h) = (ground (arith, s, k, here), h)

components-AllClean : (text : List ℕ) → has_control_byte text ≡ false → AllClean (components text)
unfolding AllClean has_control_byte pieces
components-AllClean [] h = (refl, tt)
components-AllClean (c ∷ cs) h =
    let printable : ltb c 32 ≡ false = ground (arith, h) in
    let others : has_control_byte cs ≡ false = ground (arith, h) in
    elim (Bool-cases (c == b'/')) [
      | inl slash ↦ rw slash (refl, components-AllClean cs others)
      | inr other ↦
          rw other
            (lengthen-AllClean c (components cs) other printable (components-AllClean cs others))
    ]

fold_part-AllPlain :
    (part : List ℕ) (parts parts' : List (List ℕ))
    → is_clean part ≡ true
    → AllPlain parts
    → fold_part part parts ≡ some parts'
    → AllPlain parts'
unfolding fold_part
fold_part-AllPlain part parts parts' clean h e =
    elim (Bool-cases (is_empty part || bytes_eq part dot)) [
      | inl skip ↦ let same : parts ≡ parts' = ground (arith, skip, e) in subst AllPlain same h
      | inr text ↦ elim (Bool-cases (bytes_eq part dot_dot)) [
        | inl up ↦ elim (Bool-cases (is_empty parts)) [
          | inl at_root ↦ absurd (ground (arith, text, up, at_root, e))
          | inr below ↦
              let same : pop_back parts ≡ parts' = ground (arith, text, up, below, e) in
              subst AllPlain same (AllPlain-pop_back parts h)
        ]
        | inr down ↦
            let same : parts ++ (part ∷ []) ≡ parts' = ground (arith, text, down, e) in
            subst AllPlain same (AllPlain-append parts part h (ground (arith, text, down, clean)))
      ]
    ]

fold_parts-AllPlain :
    (texts parts parts' : List (List ℕ))
    → AllClean texts
    → AllPlain parts
    → fold_parts texts parts ≡ some parts'
    → AllPlain parts'
unfolding fold_parts AllClean
fold_parts-AllPlain [] parts parts' clean h e =
    let same : parts ≡ parts' = cc e in subst AllPlain same h
fold_parts-AllPlain (t ∷ ts) parts parts' (here, clean) h e =
    elim (Option-cases (fold_part t parts)) [
      | inl gone ↦ absurd (ground (arith, gone, e))
      | inr (next, folded) ↦
          fold_parts-AllPlain ts next parts' clean (fold_part-AllPlain t parts next here h folded)
            (ground (arith, folded, e))
    ]

last_char-append :
    (xs part : List ℕ) → is_empty part ≡ false → last_char (xs ++ part) ≡ last_char part
last_char-append xs [] h = absurd (cc h)
last_char-append [] (p ∷ ps) h = refl
last_char-append (x ∷ []) (p ∷ ps) h = refl
last_char-append (x ∷ y ∷ xs) (p ∷ ps) h = last_char-append (y ∷ xs) (p ∷ ps) h

last_char-slash_free : (part : List ℕ) → slash_free part ≡ true → (last_char part == b'/') ≡ false
last_char-slash_free [] h = ground arith
last_char-slash_free (c ∷ []) h = ground (arith, h)
last_char-slash_free (c ∷ d ∷ cs) h = last_char-slash_free (d ∷ cs) (ground (arith, h))

-- Plain parts behind a text that does not end in a slash.
append_parts-joined :
    (parts : List (List ℕ)) (out : List ℕ)
    → AllPlain parts
    → (last_char out == b'/') ≡ false
    → (append_parts parts out ≡ out ++ joined parts)
      × ((last_char (append_parts parts out) == b'/') ≡ false)
unfolding append_parts joined AllPlain
append_parts-joined [] out h k = (sym (append-nil out), k)
append_parts-joined (p ∷ ps) out (here, h) k =
    let free : slash_free p ≡ true = ground (arith, here) in
    let full : is_empty p ≡ false = ground (arith, here) in
    let longer = (out ++ (b'/' ∷ [])) ++ p in
    let ends : (last_char longer == b'/') ≡ false =
      ap (λ c. c == b'/') (last_char-append (out ++ (b'/' ∷ [])) p full)
      ∙ last_char-slash_free p free in
    let (same, still) = append_parts-joined ps longer h ends in
    rw k (
      same
          ∙ append_assoc (out ++ (b'/' ∷ [])) p (joined ps)
          ∙ append_assoc out (b'/' ∷ []) (p ++ joined ps),
      still,
    )

trimmed_end-same : (cs : List ℕ) → (last_char cs == b'/') ≡ false → trimmed_end cs ≡ cs
unfolding trimmed_end
trimmed_end-same [] h = refl
trimmed_end-same (c ∷ []) h = ground (arith, h)
trimmed_end-same (c ∷ d ∷ cs) h = rw (trimmed_end-same (d ∷ cs) h) refl

trimmed_slashes-same : (cs : List ℕ) → (last_char cs == b'/') ≡ false → trimmed_slashes cs ≡ cs
unfolding trimmed_slashes
trimmed_slashes-same [] h = refl
trimmed_slashes-same (c ∷ []) h = unfold trimmed_end in refl
trimmed_slashes-same (c ∷ d ∷ cs) h = ap (λ (l : List ℕ). c ∷ l) (trimmed_end-same (d ∷ cs) h)

last_char-IsVolume : (v : List ℕ) → IsVolume v → (last_char v == b'/') ≡ false
unfolding IsVolume
last_char-IsVolume v (inl e) = rw e refl
last_char-IsVolume v (inr e) = rw e refl

-- Where a walk that succeeds ends.
pub walked-shape :
    (v : List ℕ) (parts parts' : List (List ℕ)) (rest : List ℕ)
    → IsVolume v
    → AllPlain parts'
    → fold_parts (components rest) parts ≡ some parts'
    → walked v parts rest ≡ resolved (v ++ joined parts')
unfolding walked
walked-shape v parts parts' rest known h folded =
    let (same, ends) = append_parts-joined parts' v h (last_char-IsVolume v known) in
    rw (folded, walked)
      (ap (λ l. resolved l) (trimmed_slashes-same (append_parts parts' v) ends ∙ same))

pub walked-Inside :
    (v : List ℕ) (parts : List (List ℕ)) (rest out : List ℕ)
    → IsVolume v
    → AllPlain parts
    → has_control_byte rest ≡ false
    → walked v parts rest ≡ resolved out
    → Inside out
walked-Inside v parts rest out known h clean e =
    elim (Option-cases (fold_parts (components rest) parts)) [
      | inl gone ↦ absurd (unfold walked in ground (arith, gone, e))
      | inr (parts', folded) ↦
          let plain =
            fold_parts-AllPlain (components rest) parts parts' (components-AllClean rest clean) h
              folded in
          let same : v ++ joined parts' ≡ out =
            cc (walked-shape v parts parts' rest known plain folded, e) in
          record { volume = v; parts = parts'; known = known; shape = sym same; plain = plain }
    ]
