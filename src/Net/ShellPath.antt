-- ===== src/Net/ShellPath.antt =====
-- src/net/FileShellPath.h and FileShellPath.cpp: which paths the file commands of the SSH shell may
-- name. A path is a list of bytes; the shell's state is its current directory.
pub mod Inside
pub mod Moves
pub mod Examples
use dhcpserver.Base.{
  is_empty, ℕ, ◌+◌, ◌-◌, Bool, true, false, not, ◌&&◌, ◌||◌, List, [], ◌∷◌, ◌++◌, ltb, ◌==◌,
  if◌then◌else◌, length, take, drop, bytes_eq, Option, none, some,
}
use dhcpserver.Storage.Path.{last_char, components, dot, dot_dot}

abbrev pub fat : List ℕ
fat = b'/' ∷ b'f' ∷ b'a' ∷ b't' ∷ []

abbrev pub sdcard : List ℕ
sdcard = b'/' ∷ b's' ∷ b'd' ∷ b'c' ∷ b'a' ∷ b'r' ∷ b'd' ∷ []

-- kVolumes
abbrev pub volumes : List (List ℕ)
volumes = fat ∷ sdcard ∷ []

-- Whether a path begins with a volume as a whole component.
unfoldable pub begins_with : List ℕ → List ℕ → Bool
begins_with volume absolute =
    bytes_eq (take (length volume) absolute) volume
    && elim (drop (length volume) absolute) [ [] ↦ true | c ∷ cs ↦ c == b'/' ]

unfoldable pub any_begins : List (List ℕ) → List ℕ → Bool
any_begins [] name = false
any_begins (v ∷ vs) name = if begins_with v name then true else any_begins vs name

-- startsWithVolume
unfoldable pub starts_with_volume : List ℕ → Bool
starts_with_volume name = any_begins volumes name

unfoldable pub first_volume : List (List ℕ) → List ℕ → List ℕ
first_volume [] absolute = []
first_volume (v ∷ vs) absolute = if begins_with v absolute then v else first_volume vs absolute

-- volumeOf
unfoldable pub volume_of : List ℕ → List ℕ
volume_of absolute = first_volume volumes absolute

-- hasControlByte
unfoldable pub has_control_byte : List ℕ → Bool
has_control_byte [] = false
has_control_byte (c ∷ cs) = if ltb c 32 then true else has_control_byte cs

-- trimmedSlashes: the first byte stays.
unfoldable pub trimmed_end : List ℕ → List ℕ
trimmed_end [] = []
trimmed_end (c ∷ cs) = if is_empty (trimmed_end cs) && c == b'/' then [] else c ∷ trimmed_end cs

unfoldable pub trimmed_slashes : List ℕ → List ℕ
trimmed_slashes [] = []
trimmed_slashes (c ∷ cs) = c ∷ trimmed_end cs

-- Why a path is refused.
pub data Refusal : Type 0 where
  control_symbols not_a_volume leaves_volume : Refusal

pub data Resolved : Type 0 where
  resolved : List ℕ → Resolved
  refused : Refusal → Resolved

-- The components of the current directory behind its volume.
unfoldable pub full_texts : List (List ℕ) → List (List ℕ)
full_texts [] = []
full_texts (p ∷ ps) = if is_empty p then full_texts ps else p ∷ full_texts ps

unfoldable pub standing : List ℕ → List ℕ → List (List ℕ)
standing base current = full_texts (components (drop (length base) current))

abbrev pub pop_back : List (List ℕ) → List (List ℕ)
pop_back [] = []
pop_back (p ∷ []) = []
pop_back (p ∷ q ∷ ps) = p ∷ pop_back (q ∷ ps)

-- One component of the typed path.
unfoldable pub fold_part : List ℕ → List (List ℕ) → Option (List (List ℕ))
fold_part part parts =
    if is_empty part || bytes_eq part dot
    then some parts
    else if bytes_eq part dot_dot
    then (if is_empty parts then none else some (pop_back parts))
    else some (parts ++ (part ∷ []))

unfoldable pub fold_parts : List (List ℕ) → List (List ℕ) → Option (List (List ℕ))
fold_parts [] parts = some parts
fold_parts (part ∷ rest) parts = elim (fold_part part parts) [
  | none ↦ none
  | some parts' ↦ fold_parts rest parts'
]

unfoldable pub append_parts : List (List ℕ) → List ℕ → List ℕ
append_parts [] out = out
append_parts (part ∷ rest) out =
    append_parts rest ((if last_char out == b'/' then out else out ++ (b'/' ∷ [])) ++ part)

-- The walk from a volume and the components to start from.
unfoldable pub walked : List ℕ → List (List ℕ) → List ℕ → Resolved
walked base parts rest = elim (fold_parts (components rest) parts) [
  | none ↦ refused leaves_volume
  | some parts' ↦ resolved (trimmed_slashes (append_parts parts' base))
]

-- The volume that a relative name starts from.
abbrev pub or_first : List ℕ → List ℕ
or_first [] = fat
or_first (c ∷ cs) = c ∷ cs

abbrev pub is_absolute : List ℕ → Bool
is_absolute [] = false
is_absolute (c ∷ cs) = c == b'/'

unfoldable pub resolve : List ℕ → List ℕ → Resolved
resolve current typed =
    let home = or_first (volume_of current) in
    if is_empty typed
    then resolved current
    else if has_control_byte typed
    then refused control_symbols
    else if is_absolute typed
    then (if not (starts_with_volume typed)
        then refused not_a_volume
        else walked (volume_of typed) [] (drop (length (volume_of typed)) typed))
    else walked home (standing home current) typed

-- The constructor.
abbrev pub first_directory : List ℕ
first_directory = fat

abbrev pub moved : List ℕ → Resolved → List ℕ × Bool
moved current (refused why) = (current, false)
moved current (resolved target) = if is_empty target then (current, false) else (target, true)

unfoldable pub change_to : List ℕ → List ℕ → List ℕ × Bool
change_to current typed =
    if is_empty typed
    then (or_first (volume_of current), true)
    else moved current (resolve current typed)
