-- ===== src/Storage/Path/Normal.antt =====
-- What normalize of the file explorer's paths accepts and returns.
use dhcpserver.Base.{
  pieces, ℕ, ◌≤◌, ◌≡◌, inl, inr, refl, sym, ap, subst, ◌∙◌, false, List, [], ◌∷◌, ◌++◌, none, some,
  ltb, length, arith, Bool-cases, Option-cases,
}
use dhcpserver.Storage.Path.{
  max_depth, max_path_len, dot_dot, components, take_segment, walk, split_segments, joined,
  build_path, bounded, normalize,
}
use dhcpserver.Storage.Path.Segments.{
  AllNames, AllNames-AllSlashFree, components-joined, walk-names, walk-AllNames, walk-dot_dot,
}

-- A path of names within the bounds on its depth and length.
pub record IsNormal (path : List ℕ) : Type 0 where
  pub names : List (List ℕ)
  pub shape : path ≡ build_path names
  pub valid : AllNames names
  pub shallow : length names ≤ max_depth
  pub short : length path ≤ max_path_len

-- The segments of a path of names are the names.
pub split_segments-build_path :
    (names : List (List ℕ))
    → AllNames names
    → length names ≤ max_depth
    → split_segments (build_path names) ≡ some names
unfolding build_path split_segments joined
split_segments-build_path [] h fits = unfold pieces walk take_segment in refl
split_segments-build_path (n ∷ ns) h fits =
    ap (λ texts. walk texts [])
      (unfold joined in components-joined (n ∷ ns) (AllNames-AllSlashFree (n ∷ ns) h))
    ∙ skip (n ∷ ns)
    ∙ walk-names (n ∷ ns) [] h (omega arith)
  where
    skip : (texts : List (List ℕ)) → walk ([] ∷ texts) [] ≡ walk texts []
    skip texts = unfold walk take_segment in refl

pub bounded-some :
    (path out : List ℕ) → bounded path ≡ some out → (path ≡ out) × (length out ≤ max_path_len)
bounded-some path out e = elim (Bool-cases (ltb max_path_len (length path))) [
  | inl long ↦ absurd (ground (arith, long, e))
  | inr short ↦
      let same : path ≡ out = ground (arith, short, e) in
      (same, subst (λ (l : List ℕ). length l ≤ max_path_len) same (ground (arith, short)))
]

pub normalize-some :
    (raw out : List ℕ)
    → normalize raw ≡ some out
    → (names : List (List ℕ)) × (split_segments raw ≡ some names)
      × (build_path names ≡ out)
      × (length out ≤ max_path_len)
unfolding normalize
normalize-some raw out e = elim (Option-cases (split_segments raw)) [
  | inl gone ↦ absurd (ground (arith, gone, e))
  | inr (names, cut) ↦
      let (same, short) = bounded-some (build_path names) out (rw (cut, normalize) at e) in
      (names, cut, same, short)
]

pub split_segments-AllNames :
    (raw : List ℕ) (names : List (List ℕ))
    → split_segments raw ≡ some names
    → AllNames names × (length names ≤ max_depth)
unfolding split_segments AllNames
split_segments-AllNames raw names e = walk-AllNames (components raw) [] names tt (omega arith) e

normalize-IsNormal : (raw out : List ℕ) → normalize raw ≡ some out → IsNormal out
normalize-IsNormal raw out e =
    let (names, cut, same, short) = normalize-some raw out e in
    let (valid, shallow) = split_segments-AllNames raw names cut in
    record { names = names; shape = sym same; valid = valid; shallow = shallow; short = short }

-- Exactly the normal paths are their own normal form.
IsNormal-fixed : (path : List ℕ) → IsNormal path → normalize path ≡ some path
unfolding normalize
IsNormal-fixed path ok =
    let cut = ap split_segments ok.shape ∙ split_segments-build_path ok.names ok.valid ok.shallow in
    let fits : ltb max_path_len (length path) ≡ false = omega_false (length path) ok.short in
    rw (cut, normalize) (rw (sym ok.shape) (rw fits refl))
  where
    omega_false : (n : ℕ) → n ≤ max_path_len → ltb max_path_len n ≡ false
    omega_false n h = ground (arith, h)

-- What normalize returns is a path of names, not more than the depth allows and within the length;
-- and such a path is its own normal form.
pub normalize_idempotent :
    (raw out : List ℕ) → normalize raw ≡ some out → IsNormal out × (normalize out ≡ some out)
normalize_idempotent raw out e =
    (normalize-IsNormal raw out e, IsNormal-fixed out (normalize-IsNormal raw out e))

-- A path with the component ".." anywhere is refused, whatever else it holds.
pub normalize-dot_dot :
    (raw : List ℕ) (before after : List (List ℕ))
    → components raw ≡ before ++ (dot_dot ∷ after)
    → normalize raw ≡ none
unfolding normalize split_segments
normalize-dot_dot raw before after e =
    let up = ap (λ texts. walk texts []) e ∙ walk-dot_dot before after [] in rw (up, normalize) refl
