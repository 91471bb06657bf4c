-- ===== src/Storage/Path.antt =====
-- src/storage/PathUtil.h and PathUtil.cpp: the paths of the file explorer. A path is a list of bytes.
pub mod Segments
pub mod Normal
pub mod Children
pub mod Examples
use dhcpserver.Base.{
  is_empty, ℕ, ◌+◌, ◌-◌, Bool, true, false, not, ◌&&◌, ◌||◌, List, [], ◌∷◌, ◌++◌, Option, none,
  some, ltb, leb, ◌==◌, if◌then◌else◌, length, take, drop, bytes_eq, pieces,
}

-- kMaxPathLen, kMaxSegmentLen and kMaxDepth
abbrev pub max_path_len : ℕ
max_path_len = 255

abbrev pub max_segment_len : ℕ
max_segment_len = 128

abbrev pub max_depth : ℕ
max_depth = 16

-- kUploadPartSuffix
abbrev pub upload_part_suffix : List ℕ
upload_part_suffix = b'.' ∷ b'p' ∷ b'a' ∷ b'r' ∷ b't' ∷ []

abbrev pub root : List ℕ
root = b'/' ∷ []

abbrev pub dot : List ℕ
dot = b'.' ∷ []

abbrev pub dot_dot : List ℕ
dot_dot = b'.' ∷ b'.' ∷ []

-- isValidChar
unfoldable pub is_valid_char : ℕ → Bool
is_valid_char c =
    not (ltb c 32 || c == 127)
    && not (c == b'/' || c == b'\\')
    && not (c == b'"' || c == b'*' || c == b'<' || c == b'>' || c == b'?' || c == b'|' || c == b':')

-- isPartName
unfoldable pub is_part_name : List ℕ → Bool
is_part_name name =
    if leb (length name) (length upload_part_suffix)
    then false
    else bytes_eq (drop (length name - length upload_part_suffix) name) upload_part_suffix

abbrev pub last_char : List ℕ → ℕ
last_char [] = 0
last_char (c ∷ []) = c
last_char (c ∷ d ∷ cs) = last_char (d ∷ cs)

unfoldable pub all_valid : List ℕ → Bool
all_valid [] = true
all_valid (c ∷ cs) = is_valid_char c && all_valid cs

-- isValidName
unfoldable pub is_valid_name : List ℕ → Bool
is_valid_name name =
    if is_empty name || ltb max_segment_len (length name)
    then false
    else if bytes_eq name dot || bytes_eq name dot_dot
    then false
    else if is_part_name name
    then false
    else if last_char name == b'.' || last_char name == b' '
    then false
    else all_valid name

-- The texts between the slashes of a path, in their order, as the loop of splitSegments cuts them.
abbrev pub components : List ℕ → List (List ℕ)
components path = pieces b'/' path

-- The body of that loop for one text.
unfoldable pub take_segment : List ℕ → List (List ℕ) → Option (List (List ℕ))
take_segment seg segments =
    if is_empty seg || bytes_eq seg dot
    then some segments
    else if bytes_eq seg dot_dot
    then none
    else if not (is_valid_name seg)
    then none
    else some (segments ++ (seg ∷ []))

-- The loop. The depth is tested behind every text, the last one included.
unfoldable pub walk : List (List ℕ) → List (List ℕ) → Option (List (List ℕ))
walk [] segments = some segments
walk (seg ∷ rest) segments = elim (take_segment seg segments) [
  | none ↦ none
  | some longer ↦ if ltb max_depth (length longer) then none else walk rest longer
]

-- splitSegments
unfoldable pub split_segments : List ℕ → Option (List (List ℕ))
split_segments path = walk (components path) []

unfoldable pub joined : List (List ℕ) → List ℕ
joined [] = []
joined (seg ∷ rest) = b'/' ∷ (seg ++ joined rest)

-- buildPath
unfoldable pub build_path : List (List ℕ) → List ℕ
build_path segments = if is_empty (joined segments) then root else joined segments

abbrev pub bounded : List ℕ → Option (List ℕ)
bounded path = if ltb max_path_len (length path) then none else some path

unfoldable pub normalize : List ℕ → Option (List ℕ)
normalize raw = elim (split_segments raw) [
  | none ↦ none
  | some segments ↦ bounded (build_path segments)
]

-- normalizeChild
unfoldable pub normalize_child : List ℕ → List ℕ → Option (List ℕ)
normalize_child dir name = if not (is_valid_name name) then none else elim (split_segments dir) [
  | none ↦ none
  | some segments ↦
      let longer = segments ++ (name ∷ []) in
      if ltb max_depth (length longer) then none else bounded (build_path longer)
]

abbrev pub without_last : List ℕ → List ℕ
without_last [] = []
without_last (c ∷ []) = []
without_last (c ∷ d ∷ cs) = c ∷ without_last (d ∷ cs)

abbrev pub with_slash : List ℕ → List ℕ
with_slash [] = root
with_slash (c ∷ cs) = if c == b'/' then c ∷ cs else b'/' ∷ c ∷ cs

unfoldable pub join : List ℕ → List ℕ → List ℕ
join mount_point rel_path =
    if is_empty rel_path || bytes_eq rel_path root
    then mount_point
    else (if last_char mount_point == b'/' then without_last mount_point else mount_point)
      ++ with_slash rel_path

-- find_last_of('/')
unfoldable pub last_slash : List ℕ → Option ℕ
last_slash [] = none
last_slash (c ∷ cs) = elim (last_slash cs) [
  | some i ↦ some (i + 1)
  | none ↦ if c == b'/' then some 0 else none
]

unfoldable pub parent : List ℕ → List ℕ
parent rel_path =
    if is_empty rel_path || bytes_eq rel_path root then root else elim (last_slash rel_path) [
      | none ↦ root
      | some slash ↦ if slash == 0 then root else take slash rel_path
    ]

unfoldable pub basename : List ℕ → List ℕ
basename rel_path =
    if is_empty rel_path || bytes_eq rel_path root
    then []
    else elim (last_slash rel_path) [ none ↦ rel_path | some slash ↦ drop (slash + 1) rel_path ]
