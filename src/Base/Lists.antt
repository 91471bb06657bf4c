-- ===== src/Base/Lists.antt =====
-- Lists measured and indexed by native numbers, and the equality of byte strings.
use Prim.Native.Nat.{ℕ, zero, suc, ◌+◌, ◌-◌, ◌≤◌, ◌<◌}
use mathlib.Core.Path.{◌≡◌, refl, ap, ◌∙◌}
use mathlib.Core.Logic.{◌↔◌, ◌≢◌}
use mathlib.Core.Bool.{Bool, true, false, not, ◌&&◌}
use mathlib.Core.List.{List, [], ◌∷◌, ◌++◌}
use mathlib.Core.Option.{Option, none, some}
use native.Mathlib.Omega.{arith}
use dhcpserver.Base.Tests.{◌==◌, if◌then◌else◌}

module _ {ℓ} {A : Type ℓ} where
  abbrev pub length : List A → ℕ
  length [] = 0
  length (x ∷ xs) = suc (length xs)

  abbrev pub is_empty : List A → Bool
  is_empty [] = true
  is_empty (x ∷ xs) = false

  abbrev pub get_elem? : List A → ℕ → Option A
  get_elem? [] i = none
  get_elem? (x ∷ xs) zero = some x
  get_elem? (x ∷ xs) (suc i) = get_elem? xs i

  abbrev pub get_or : List A → ℕ → A → A
  get_or [] i d = d
  get_or (x ∷ xs) zero d = x
  get_or (x ∷ xs) (suc i) d = get_or xs i d

  abbrev pub set : List A → ℕ → A → List A
  set [] i v = []
  set (x ∷ xs) zero v = v ∷ xs
  set (x ∷ xs) (suc i) v = x ∷ set xs i v

  abbrev pub take : ℕ → List A → List A
  take zero xs = []
  take (suc n) [] = []
  take (suc n) (x ∷ xs) = x ∷ take n xs

  abbrev pub drop : ℕ → List A → List A
  drop zero xs = xs
  drop (suc n) [] = []
  drop (suc n) (x ∷ xs) = drop n xs

  abbrev pub replicate : ℕ → A → List A
  replicate zero a = []
  replicate (suc n) a = a ∷ replicate n a

module _ {ℓ} {A : Type ℓ} where
  pub length-append : (xs ys : List A) → length (xs ++ ys) ≡ length xs + length ys
  length-append [] ys = omega arith
  length-append (x ∷ xs) ys = omega (arith, length-append xs ys)

  pub length-set : (xs : List A) (i : ℕ) (v : A) → length (set xs i v) ≡ length xs
  length-set [] i v = refl
  length-set (x ∷ xs) zero v = refl
  length-set (x ∷ xs) (suc i) v = ap suc (length-set xs i v)

  pub length-replicate : (n : ℕ) (a : A) → length (replicate n a) ≡ n
  length-replicate zero a = refl
  length-replicate (suc n) a = ap suc (length-replicate n a)

  pub length-take-le : (n : ℕ) (xs : List A) → length (take n xs) ≤ n
  length-take-le zero xs = omega arith
  length-take-le (suc n) [] = omega arith
  length-take-le (suc n) (x ∷ xs) = omega (arith, length-take-le n xs)

  pub get_or-set_self :
      (xs : List A) (i : ℕ) (v d : A) → i < length xs → get_or (set xs i v) i d ≡ v
  get_or-set_self [] i v d h = absurd (omega arith)
  get_or-set_self (x ∷ xs) zero v d h = refl
  get_or-set_self (x ∷ xs) (suc i) v d h = get_or-set_self xs i v d (omega arith)

  pub get_or-set_ne :
      (xs : List A) (i j : ℕ) (v d : A) → i ≢ j → get_or (set xs i v) j d ≡ get_or xs j d
  get_or-set_ne [] i j v d h = refl
  get_or-set_ne (x ∷ xs) zero zero v d h = absurd (h refl)
  get_or-set_ne (x ∷ xs) zero (suc j) v d h = refl
  get_or-set_ne (x ∷ xs) (suc i) zero v d h = refl
  get_or-set_ne (x ∷ xs) (suc i) (suc j) v d h = get_or-set_ne xs i j v d (λ e. h (ap suc e))

  pub get_or-replicate : (n i : ℕ) (a : A) → get_or (replicate n a) i a ≡ a
  get_or-replicate zero i a = refl
  get_or-replicate (suc n) zero a = refl
  get_or-replicate (suc n) (suc i) a = get_or-replicate n i a

module _ {ℓ} {A : Type ℓ} where
  -- What stands before and behind a place in a list.
  pub drop-append : (n : ℕ) (xs c : List A) → n ≤ length xs → drop n (xs ++ c) ≡ drop n xs ++ c
  drop-append zero xs c h = refl
  drop-append (suc n) [] c h = absurd (omega arith)
  drop-append (suc n) (x ∷ xs) c h = drop-append n xs c (omega arith)

  pub take-append : (n : ℕ) (xs c : List A) → n ≤ length xs → take n (xs ++ c) ≡ take n xs
  take-append zero xs c h = refl
  take-append (suc n) [] c h = absurd (omega arith)
  take-append (suc n) (x ∷ xs) c h = ap (λ r. x ∷ r) (take-append n xs c (omega arith))

  pub take-append_past :
      (xs c : List A) (n : ℕ) → length xs ≤ n → take n (xs ++ c) ≡ xs ++ take (n - length xs) c
  take-append_past [] c n h = ap (λ k. take k c) (omega arith)
  take-append_past (x ∷ xs) c zero h = absurd (omega arith)
  take-append_past (x ∷ xs) c (suc n) h =
      ap (λ r. x ∷ r)
        (take-append_past xs c n (omega arith) ∙ ap (λ k. xs ++ take k c) (omega arith))

  pub take-drop : (n : ℕ) (xs : List A) → take n xs ++ drop n xs ≡ xs
  take-drop zero xs = refl
  take-drop (suc n) [] = refl
  take-drop (suc n) (x ∷ xs) = ap (λ r. x ∷ r) (take-drop n xs)

  pub length-take : (n : ℕ) (xs : List A) → n ≤ length xs → length (take n xs) ≡ n
  length-take zero xs h = refl
  length-take (suc n) [] h = absurd (omega arith)
  length-take (suc n) (x ∷ xs) h = ap suc (length-take n xs (omega arith))

  pub length-drop : (n : ℕ) (xs : List A) → length (drop n xs) ≡ length xs - n
  length-drop zero xs = omega arith
  length-drop (suc n) [] = omega arith
  length-drop (suc n) (x ∷ xs) = length-drop n xs ∙ omega arith

  pub drop-append_exact : (xs c : List A) (n : ℕ) → n ≡ length xs → drop n (xs ++ c) ≡ c
  drop-append_exact [] c zero h = refl
  drop-append_exact [] c (suc n) h = absurd (omega arith)
  drop-append_exact (x ∷ xs) c zero h = absurd (omega arith)
  drop-append_exact (x ∷ xs) c (suc n) h = drop-append_exact xs c n (omega arith)

  pub take-append_exact : (xs c : List A) → take (length xs) (xs ++ c) ≡ xs
  take-append_exact [] c = refl
  take-append_exact (x ∷ xs) c = ap (λ r. x ∷ r) (take-append_exact xs c)

-- Equality of two byte strings, as `memcmp` and `operator==` decide it.
unfoldable pub bytes_eq : List ℕ → List ℕ → Bool
bytes_eq [] [] = true
bytes_eq [] (y ∷ ys) = false
bytes_eq (x ∷ xs) [] = false
bytes_eq (x ∷ xs) (y ∷ ys) = x == y && bytes_eq xs ys

pub bytes_eq_refl : (xs : List ℕ) → bytes_eq xs xs ≡ true
unfolding bytes_eq
bytes_eq_refl [] = refl
bytes_eq_refl (x ∷ xs) = ground (arith, bytes_eq_refl xs)

pub bytes_eq_sound : (xs ys : List ℕ) → bytes_eq xs ys ≡ true → xs ≡ ys
unfolding bytes_eq
bytes_eq_sound [] [] h = refl
bytes_eq_sound [] (y ∷ ys) h = ground arith
bytes_eq_sound (x ∷ xs) [] h = ground arith
bytes_eq_sound (x ∷ xs) (y ∷ ys) h = ground (arith, bytes_eq_sound xs ys)

pub bytes_eq_iff : (xs ys : List ℕ) → (bytes_eq xs ys ≡ true) ↔ (xs ≡ ys)
unfolding bytes_eq
bytes_eq_iff xs ys = (bytes_eq_sound xs ys, λ e. subst_lem e (bytes_eq_refl xs))
  where
    subst_lem : xs ≡ ys → bytes_eq xs xs ≡ true → bytes_eq xs ys ≡ true
    subst_lem e h = rw (← e) h

-- The texts between the separators `sep` of a text, in their order.
abbrev pub lengthen : ℕ → List (List ℕ) → List (List ℕ)
lengthen c [] = []
lengthen c (p ∷ ps) = (c ∷ p) ∷ ps

unfoldable pub pieces : ℕ → List ℕ → List (List ℕ)
pieces sep [] = [] ∷ []
pieces sep (c ∷ cs) = if c == sep then [] ∷ pieces sep cs else lengthen c (pieces sep cs)

abbrev pub is_free : ℕ → List ℕ → Bool
is_free sep [] = true
is_free sep (c ∷ cs) = not (c == sep) && is_free sep cs

pub pieces-append_sep :
    (sep : ℕ) (seg rest : List ℕ)
    → is_free sep seg ≡ true
    → pieces sep (seg ++ (sep ∷ rest)) ≡ seg ∷ pieces sep rest
unfolding pieces
pieces-append_sep sep [] rest h = let here : (sep == sep) ≡ true = ground arith in rw here refl
pieces-append_sep sep (c ∷ cs) rest h =
    let other : (c == sep) ≡ false = ground (arith, h) in
    let others : is_free sep cs ≡ true = ground (arith, h) in
    rw other (ap (lengthen c) (pieces-append_sep sep cs rest others))

pub pieces-free : (sep : ℕ) (seg : List ℕ) → is_free sep seg ≡ true → pieces sep seg ≡ seg ∷ []
unfolding pieces
pieces-free sep [] h = refl
pieces-free sep (c ∷ cs) h =
    let other : (c == sep) ≡ false = ground (arith, h) in
    let others : is_free sep cs ≡ true = ground (arith, h) in
    rw other (ap (lengthen c) (pieces-free sep cs others))
