-- ===== src/Storage/Path/Children.antt =====
-- The child of a directory, its parent and its name.
use dhcpserver.Base.{
  is_empty, ℕ, suc, ◌+◌, ◌≤◌, ◌≡◌, inl, inr, refl, sym, ap, ◌∙◌, true, false, ◌||◌, List, [], ◌∷◌,
  ◌++◌, none, some, ltb, ◌==◌, if◌then◌else◌, length, length-append, append_assoc, append-nil, drop,
  drop-append_exact, take-append_exact, bytes_eq, bytes_eq_sound, arith, Bool-cases, Option-cases,
}
use dhcpserver.Storage.Path.{
  max_depth, max_path_len, root, is_valid_char, all_valid, is_valid_name, split_segments, joined,
  build_path, normalize, normalize_child, last_slash, parent, basename,
}
use dhcpserver.Storage.Path.Segments.{is_valid_name-all_valid, is_valid_name-ne_empty}
use dhcpserver.Storage.Path.Normal.{bounded-some}

joined-append :
    (ss : List (List ℕ)) (name : List ℕ) → joined (ss ++ (name ∷ [])) ≡ joined ss ++ (b'/' ∷ name)
unfolding joined
joined-append [] name = ap (λ (l : List ℕ). b'/' ∷ l) (append-nil name)
joined-append (s ∷ ss) name =
    ap (λ (l : List ℕ). b'/' ∷ l)
      (ap (λ l. s ++ l) (joined-append ss name) ∙ sym (append_assoc s (joined ss) (b'/' ∷ name)))

last_slash-all_valid : (name : List ℕ) → all_valid name ≡ true → last_slash name ≡ none
unfolding last_slash all_valid is_valid_char
last_slash-all_valid [] h = refl
last_slash-all_valid (c ∷ cs) h =
    let no_slash : (c == b'/') ≡ false = ground (arith, h) in
    let others : all_valid cs ≡ true = ground (arith, h) in
    rw (last_slash-all_valid cs others, no_slash) refl

last_slash-append :
    (xs name : List ℕ) → all_valid name ≡ true → last_slash (xs ++ (b'/' ∷ name)) ≡ some (length xs)
unfolding last_slash
last_slash-append [] name h = rw (last_slash-all_valid name h) refl
last_slash-append (x ∷ xs) name h =
    rw (last_slash-append xs name h) (ap (λ (n : ℕ). some n) (omega arith))

-- A path with a name at its end is not empty, and not the root.
named-path :
    (xs name : List ℕ)
    → is_empty name ≡ false
    → (is_empty (xs ++ (b'/' ∷ name)) || bytes_eq (xs ++ (b'/' ∷ name)) root) ≡ false
named-path xs [] h = absurd (cc h)
named-path [] (c ∷ cs) h = unfold bytes_eq in refl
named-path (x ∷ xs) (c ∷ cs) h = elim (Bool-cases (bytes_eq (x ∷ (xs ++ (b'/' ∷ (c ∷ cs)))) root)) [
  | inr apart ↦ apart
  | inl same ↦
      let size =
        ap (λ (l : List ℕ). length l) (bytes_eq_sound (x ∷ (xs ++ (b'/' ∷ (c ∷ cs)))) root same) in
      absurd (omega (arith, size, length-append xs (b'/' ∷ (c ∷ cs))))
]

basename-append :
    (xs name : List ℕ) → is_valid_name name ≡ true → basename (xs ++ (b'/' ∷ name)) ≡ name
unfolding basename
basename-append xs name h =
    rw
      (
        named-path xs name (is_valid_name-ne_empty name h),
        last_slash-append xs name (is_valid_name-all_valid name h),
      )
      (ap (λ l. drop (length xs + 1) l) (sym (append_assoc xs root name))
        ∙ drop-append_exact (xs ++ root) name (length xs + 1)
            (omega (arith, length-append xs root)))

positive : {P : Type 0} (n : ℕ) (u : P) {v w : P} → v ≡ w → (if suc n == 0 then u else v) ≡ w
positive n u e = let more : (suc n == 0) ≡ false = ground arith in rw more e

parent-append :
    (ss : List (List ℕ)) (name : List ℕ)
    → is_valid_name name ≡ true
    → parent (joined ss ++ (b'/' ∷ name)) ≡ build_path ss
unfolding parent build_path
parent-append [] name h =
    unfold joined in
    rw
      (
        named-path [] name (is_valid_name-ne_empty name h),
        last_slash-append [] name (is_valid_name-all_valid name h),
      )
      refl
parent-append (s ∷ ss) name h =
    rw
      (
        named-path (joined (s ∷ ss)) name (is_valid_name-ne_empty name h),
        last_slash-append (joined (s ∷ ss)) name (is_valid_name-all_valid name h),
      )
      (unfold joined in
        (positive (length (s ++ joined ss)) root
          (ap (λ (l : List ℕ). b'/' ∷ l) (take-append_exact (s ++ joined ss) (b'/' ∷ name)))))

build_path-append :
    (ss : List (List ℕ)) (name : List ℕ)
    → build_path (ss ++ (name ∷ [])) ≡ joined ss ++ (b'/' ∷ name)
unfolding build_path
build_path-append ss name =
    ap (λ (l : List ℕ). if is_empty l then root else l) (joined-append ss name) ∙ full (joined ss)
  where
    full :
        (xs : List ℕ)
        → (if is_empty (xs ++ (b'/' ∷ name)) then root else xs ++ (b'/' ∷ name))
          ≡ xs ++ (b'/' ∷ name)
    full [] = refl
    full (x ∷ xs) = refl

length-build_path : (ss : List (List ℕ)) → length (build_path ss) ≤ length (joined ss) + 1
unfolding build_path
length-build_path ss = elim (Bool-cases (is_empty (joined ss))) [
  | inl e ↦ rw e (omega arith)
  | inr e ↦ rw e (omega arith)
]

-- The path of a child that normalizeChild accepts has the normal form of the directory for its parent
-- and the given name for its last segment.
pub normalize_child-parent :
    (dir name out : List ℕ)
    → normalize_child dir name ≡ some out
    → (normalize dir ≡ some (parent out)) × (basename out ≡ name)
unfolding normalize_child
normalize_child-parent dir name out e = elim (Bool-cases (is_valid_name name)) [
  | inr bad ↦ absurd (ground (arith, bad, e))
  | inl ok ↦ elim (Option-cases (split_segments dir)) [
    | inl gone ↦ absurd (ground (arith, ok, gone, e))
    | inr (segments, cut) ↦ elim (Bool-cases (ltb max_depth (length (segments ++ (name ∷ []))))) [
      | inl deep ↦ absurd (ground (arith, ok, cut, deep, e))
      | inr shallow ↦
          let (same, short) =
            bounded-some (build_path (segments ++ (name ∷ []))) out
              (rw (ok, cut, shallow, normalize_child) at e) in
          let shape : joined segments ++ (b'/' ∷ name) ≡ out =
            sym (build_path-append segments name) ∙ same in
          let above : parent out ≡ build_path segments =
            ap parent (sym shape) ∙ parent-append segments name ok in
          let fits : ltb max_path_len (length (build_path segments)) ≡ false =
            within (length (build_path segments)) (
              omega (
                arith,
                short,
                length-build_path segments,
                ap (λ (l : List ℕ). length l) shape,
                length-append (joined segments) (b'/' ∷ name),
              )) in
          (
            unfold normalize in
                rw (cut, normalize) (rw fits (ap (λ (l : List ℕ). some l) (sym above))),
            ap basename (sym shape) ∙ basename-append (joined segments) name ok,
          )
    ]
  ]
]
  where
    within : (n : ℕ) → n ≤ max_path_len → ltb max_path_len n ≡ false
    within n h = ground (arith, h)
