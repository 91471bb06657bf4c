-- ===== src/Storage/Path/Examples.antt =====
-- Paths of the file explorer.
use dhcpserver.Base.{pieces, ℕ, ◌≡◌, refl, List, [], ◌∷◌, none, some, bytes_eq}
use dhcpserver.Storage.Path.{
  is_valid_char, is_part_name, all_valid, is_valid_name, take_segment, walk, split_segments, joined,
  build_path, normalize, normalize_child, join, parent, basename,
}
use dhcpserver.Storage.Path.Normal.{IsNormal, normalize_idempotent, normalize-dot_dot}
use dhcpserver.Storage.Path.Children.{normalize_child-parent}

-- "a//./b/" and "/a/b"
abbrev loose : List ℕ
loose = b'a' ∷ b'/' ∷ b'/' ∷ b'.' ∷ b'/' ∷ b'b' ∷ b'/' ∷ []

abbrev tight : List ℕ
tight = b'/' ∷ b'a' ∷ b'/' ∷ b'b' ∷ []

loose_normal : normalize loose ≡ some tight
unfolding normalize split_segments pieces walk take_segment is_valid_name is_part_name all_valid
    is_valid_char build_path joined bytes_eq
loose_normal = refl

-- "/x.part" is no path.
reserved : normalize (b'/' ∷ b'x' ∷ b'.' ∷ b'p' ∷ b'a' ∷ b'r' ∷ b't' ∷ []) ≡ none
unfolding normalize split_segments pieces walk take_segment is_valid_name is_part_name all_valid
    is_valid_char build_path joined bytes_eq
reserved = refl

mounted : join (b'/' ∷ b'f' ∷ []) tight ≡ b'/' ∷ b'f' ∷ b'/' ∷ b'a' ∷ b'/' ∷ b'b' ∷ []
unfolding join bytes_eq
mounted = refl

normalize_idempotent_example : IsNormal tight × (normalize tight ≡ some tight)
normalize_idempotent_example = normalize_idempotent loose tight loose_normal

-- "a/../b"
abbrev climbing : List ℕ
climbing = b'a' ∷ b'/' ∷ b'.' ∷ b'.' ∷ b'/' ∷ b'b' ∷ []

normalize-dot_dot_example : normalize climbing ≡ none
normalize-dot_dot_example =
    normalize-dot_dot climbing ((b'a' ∷ []) ∷ []) ((b'b' ∷ []) ∷ []) (unfold pieces in refl)

child_of_loose :
    normalize_child loose (b'c' ∷ []) ≡ some (b'/' ∷ b'a' ∷ b'/' ∷ b'b' ∷ b'/' ∷ b'c' ∷ [])
unfolding normalize_child split_segments pieces walk take_segment is_valid_name is_part_name
    all_valid is_valid_char build_path joined bytes_eq
child_of_loose = refl

normalize_child-parent_example :
    (normalize loose ≡ some (parent (b'/' ∷ b'a' ∷ b'/' ∷ b'b' ∷ b'/' ∷ b'c' ∷ [])))
    × (basename (b'/' ∷ b'a' ∷ b'/' ∷ b'b' ∷ b'/' ∷ b'c' ∷ []) ≡ b'c' ∷ [])
normalize_child-parent_example =
    normalize_child-parent loose (b'c' ∷ []) (b'/' ∷ b'a' ∷ b'/' ∷ b'b' ∷ b'/' ∷ b'c' ∷ [])
      child_of_loose
