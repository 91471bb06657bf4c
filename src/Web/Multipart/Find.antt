-- ===== src/Web/Multipart/Find.antt =====
-- The search of std::string::find in a text that grows at its end.
use dhcpserver.Base.{
  ℕ, suc, ◌+◌, ◌≤◌, ◌<◌, ◌≡◌, inl, inr, refl, sym, ap, ◌∙◌, true, false, ◌&&◌, List, [], ◌∷◌, ◌++◌,
  none, some, ◌==◌, length, length-append, append_assoc, arith, Bool-cases, Option-cases,
}
use dhcpserver.Web.Multipart.{is_prefix, shifted, find}

is_prefix-length : (d xs : List ℕ) → is_prefix d xs ≡ true → length d ≤ length xs
unfolding is_prefix
is_prefix-length [] xs h = omega arith
is_prefix-length (d ∷ ds) [] h = ground arith
is_prefix-length (d ∷ ds) (x ∷ xs) h =
    let rest : is_prefix ds xs ≡ true = ground (arith, h) in
    omega (arith, is_prefix-length ds xs rest)

is_prefix-append : (d xs c : List ℕ) → length d ≤ length xs → is_prefix d (xs ++ c) ≡ is_prefix d xs
unfolding is_prefix
is_prefix-append [] xs c h = refl
is_prefix-append (d ∷ ds) [] c h = absurd (omega arith)
is_prefix-append (d ∷ ds) (x ∷ xs) c h =
    ap (λ b. d == x && b) (is_prefix-append ds xs c (omega arith))

pub find-bound : (xs d : List ℕ) (p : ℕ) → find xs d ≡ some p → p + length d ≤ length xs
unfolding find
find-bound [] d p h = elim (Bool-cases (is_prefix d [])) [
  | inl here ↦
      let at_0 : 0 ≡ p = ground (arith, here, h) in omega (arith, at_0, is_prefix-length d [] here)
  | inr other ↦ absurd (ground (arith, other, h))
]
find-bound (x ∷ xs) d p h = elim (Bool-cases (is_prefix d (x ∷ xs))) [
  | inl here ↦
      let at_0 : 0 ≡ p = ground (arith, here, h) in
      omega (arith, at_0, is_prefix-length d (x ∷ xs) here)
  | inr other ↦ elim (Option-cases (find xs d)) [
    | inl gone ↦ absurd (ground (arith, other, gone, h))
    | inr (k, found) ↦
        let next : k + 1 ≡ p = ground (arith, other, found, h) in
        omega (arith, next, find-bound xs d k found)
  ]
]

-- What was found stays found.
pub find-append_some : (xs c d : List ℕ) (p : ℕ) → find xs d ≡ some p → find (xs ++ c) d ≡ some p
unfolding find is_prefix
find-append_some [] c d p h =
    elim d as (λ e. find [] e ≡ some p → find c e ≡ some p) [
      | [] ↦ λ found. blank c ∙ found
      | d ∷ ds ↦ λ found. absurd (unfold is_prefix in cc found)
    ]
      h
  where
    blank : (ys : List ℕ) → find ys [] ≡ some 0
    blank [] = unfold find is_prefix in refl
    blank (y ∷ ys) = unfold find is_prefix in refl
find-append_some (x ∷ xs) c d p h =
    let fits = find-bound (x ∷ xs) d p h in
    elim (Bool-cases (is_prefix d (x ∷ xs))) [
      | inl here ↦
          let there = is_prefix-append d (x ∷ xs) c (is_prefix-length d (x ∷ xs) here) ∙ here in
          rw there (rw here at h)
      | inr other ↦ elim (Option-cases (find xs d)) [
        | inl gone ↦ absurd (ground (arith, other, gone, h))
        | inr (k, found) ↦
            let there = is_prefix-append d (x ∷ xs) c (omega arith) ∙ other in
            rw (there, find-append_some xs c d k found) (rw (other, found) at h)
      ]
    ]

-- What was not found before ends in the bytes that came later.
pub find-append_late :
    (xs c d : List ℕ) (p : ℕ)
    → find xs d ≡ none
    → find (xs ++ c) d ≡ some p
    → length xs < p + length d
unfolding find
find-append_late [] c [] p gone h = absurd (unfold is_prefix in cc gone)
find-append_late [] c (d ∷ ds) p gone h = omega arith
find-append_late (x ∷ xs) c d p gone h = elim (Bool-cases (is_prefix d (x ∷ xs))) [
  | inl here ↦ absurd (ground (arith, here, gone))
  | inr other ↦
      let rest : find xs d ≡ none = elim (Option-cases (find xs d)) [
        | inl n ↦ n
        | inr (k, found) ↦ absurd (ground (arith, other, found, gone))
      ] in
      elim (Bool-cases (is_prefix d (x ∷ (xs ++ c)))) [
        | inl there ↦ ground (arith, other, there, is_prefix-append d (x ∷ xs) c)
        | inr apart ↦ elim (Option-cases (find (xs ++ c) d)) [
          | inl none_there ↦ absurd (ground (arith, apart, none_there, h))
          | inr (k, found) ↦
              let next : k + 1 ≡ p = ground (arith, apart, found, h) in
              omega (arith, next, find-append_late xs c d k rest found)
        ]
      ]
]

-- Bytes before the last ones that could begin the text play no part in the search.
pub find-append_skip :
    (out xs c d : List ℕ)
    → find (out ++ xs) d ≡ none
    → length d ≤ length xs + 1
    → find (out ++ (xs ++ c)) d ≡ shifted (length out) (find (xs ++ c) d)
unfolding find
find-append_skip [] xs c d gone fits = elim (find (xs ++ c) d) as (λ o. o ≡ shifted 0 o) [
  | none ↦ refl
  | some i ↦ ap (λ (n : ℕ). some n) (omega arith)
]
find-append_skip (o ∷ out) xs c d gone fits = elim (Bool-cases (is_prefix d (o ∷ (out ++ xs)))) [
  | inl here ↦ absurd (ground (arith, here, gone))
  | inr other ↦
      let rest : find (out ++ xs) d ≡ none = elim (Option-cases (find (out ++ xs) d)) [
        | inl n ↦ n
        | inr (k, found) ↦ absurd (ground (arith, other, found, gone))
      ] in
      let there : is_prefix d (o ∷ (out ++ (xs ++ c))) ≡ false =
        ap (λ l. is_prefix d (o ∷ l)) (sym (append_assoc out xs c))
        ∙ is_prefix-append d (o ∷ (out ++ xs)) c (omega (arith, fits, length-append out xs))
        ∙ other in
      rw (there, find-append_skip out xs c d rest fits)
        (elim (find (xs ++ c) d)
          as (λ r. shifted 1 (shifted (length out) r) ≡ shifted (suc (length out)) r) [
            | none ↦ refl
            | some i ↦ ap (λ (n : ℕ). some n) (omega arith)
          ])
]
