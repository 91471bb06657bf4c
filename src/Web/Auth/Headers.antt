-- ===== src/Web/Auth/Headers.antt =====
-- What an Authorization header presents, described apart from the code that reads it.
use dhcpserver.Base.{
  ℕ, ◌≡◌, ◌≢◌, inl, inr, refl, sym, ap, ◌∙◌, Bool, true, false, not, List, [], ◌∷◌, ◌++◌, Option,
  none, some, leb, ◌==◌, if◌then◌else◌, length, take, is_empty, bytes_eq, arith, Bool-cases,
  Option-cases,
}
use dhcpserver.Web.Auth.{counts_as_failed_attempt, split_colon}

-- The scheme of HTTP Basic and the blank behind it.
abbrev pub scheme : List ℕ
scheme = b'B' ∷ b'a' ∷ b's' ∷ b'i' ∷ b'c' ∷ b' ' ∷ []

-- The rest of a text behind a prefix, none when it does not begin with the prefix.
unfoldable pub behind : List ℕ → List ℕ → Option (List ℕ)
behind [] text = some text
behind (p ∷ ps) [] = none
behind (p ∷ ps) (c ∷ cs) = if c == p then behind ps cs else none

abbrev pub some_text : Option (List ℕ) → Bool
some_text none = false
some_text (some text) = not (is_empty text)

-- A header presents credentials when a byte at least stands behind the scheme.
unfoldable pub is_attempt : List ℕ → Bool
is_attempt header = some_text (behind scheme header)

behind-take :
    (ps text : List ℕ)
    → (if leb (length text) (length ps) then false else bytes_eq (take (length ps) text) ps)
      ≡ some_text (behind ps text)
unfolding behind bytes_eq
behind-take [] [] = refl
behind-take [] (c ∷ cs) = ground arith
behind-take (p ∷ ps) [] = ground arith
behind-take (p ∷ ps) (c ∷ cs) = ground (arith, behind-take ps cs)

-- The code counts the headers that present credentials.
pub counts-is_attempt : (header : List ℕ) → counts_as_failed_attempt header ≡ is_attempt header
unfolding counts_as_failed_attempt is_attempt
counts-is_attempt header = behind-take scheme header

behind_sound : (ps text rest : List ℕ) → behind ps text ≡ some rest → text ≡ ps ++ rest
unfolding behind
behind_sound [] text rest e = cc e
behind_sound (p ∷ ps) [] rest e = absurd (cc e)
behind_sound (p ∷ ps) (c ∷ cs) rest e = elim (Bool-cases (c == p)) [
  | inr differ ↦ absurd (ground (arith, differ, e))
  | inl same ↦
      let at : c ≡ p = ground (arith, same) in
      let tail = behind_sound ps cs rest (ground (arith, same, e)) in cc (at, tail)
]

pub is_attempt_sound :
    (header : List ℕ)
    → is_attempt header ≡ true
    → (text : List ℕ) × (header ≡ scheme ++ text) × (text ≢ [])
unfolding is_attempt
is_attempt_sound header h = elim (Option-cases (behind scheme header)) [
  | inl e ↦ absurd (cc (ap some_text e, h))
  | inr (text, e) ↦ (
    text,
    behind_sound scheme header text e,
    λ q. absurd (cc (sym h ∙ ap some_text e ∙ ap (λ t. not (is_empty t)) q)),
  )
]

pub is_attempt_complete : (text : List ℕ) → text ≢ [] → is_attempt (scheme ++ text) ≡ true
unfolding is_attempt behind
is_attempt_complete [] n = absurd (n refl)
is_attempt_complete (c ∷ cs) n = refl

-- A user name without a colon.
unfoldable pub NoColon : List ℕ → Type 0
NoColon [] = Unit {0}
NoColon (c ∷ cs) = (c ≢ b':') × NoColon cs

pub split_colon_sound :
    (text user pass : List ℕ) → split_colon text ≡ some (user, pass) → text ≡ user ++ (b':' ∷ pass)
unfolding split_colon
split_colon_sound [] user pass e = absurd (cc e)
split_colon_sound (c ∷ cs) user pass e = elim (Bool-cases (c == b':')) [
  | inl colon ↦
      let at : c ≡ b':' = ground (arith, colon) in
      let whole : ◌≡◌ {A = Option (List ℕ × List ℕ)} (some ([], cs)) (some (user, pass)) =
        rw colon at e in
      let none_before : [] ≡ user = cc whole in
      let behind_it : cs ≡ pass = cc whole in rw (sym none_before, sym behind_it, at) refl
  | inr other ↦ elim (Option-cases (split_colon cs)) [
    | inl stuck ↦ absurd (ground (arith, other, stuck, e))
    | inr ((u, p), found) ↦
        let tail = split_colon_sound cs u p found in
        let whole : ◌≡◌ {A = Option (List ℕ × List ℕ)} (some (c ∷ u, p)) (some (user, pass)) =
          rw (other, found) at e in
        let begins : c ∷ u ≡ user = cc whole in
        let ends : p ≡ pass = cc whole in ap (λ t. c ∷ t) tail ∙ rw (sym begins, sym ends) refl
  ]
]

pub split_colon_complete :
    (user pass : List ℕ) → NoColon user → split_colon (user ++ (b':' ∷ pass)) ≡ some (user, pass)
unfolding split_colon NoColon
split_colon_complete [] pass n = refl
split_colon_complete (c ∷ cs) pass (first, rest) =
    let other : (c == b':') ≡ false = ground (arith, first) in
    rw (other, split_colon_complete cs pass rest) refl
