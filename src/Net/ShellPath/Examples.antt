-- ===== src/Net/ShellPath/Examples.antt =====
-- A session of the SSH shell.
use dhcpserver.Base.{
  is_empty, pieces, ℕ, ◌≡◌, inl, refl, true, false, List, [], ◌∷◌, ◌++◌, bytes_eq, if◌then◌else◌,
}
use dhcpserver.Storage.Path.{dot_dot, joined}
use dhcpserver.Net.ShellPath.{
  fat, sdcard, begins_with, any_begins, starts_with_volume, first_volume, volume_of,
  has_control_byte, trimmed_end, trimmed_slashes, resolved, refused, not_a_volume, leaves_volume,
  full_texts, standing, fold_part, fold_parts, append_parts, walked, resolve, change_to,
  first_directory,
}
use dhcpserver.Net.ShellPath.Inside.{AllPlain, IsVolume, Inside}
use dhcpserver.Net.ShellPath.Moves.{moves, moves-Inside, above, resolve_up}

-- "a", "../b/", "/sdcard/c"
abbrev names : List (List ℕ)
names =
    (b'a' ∷ [])
    ∷ (b'.' ∷ b'.' ∷ b'/' ∷ b'b' ∷ b'/' ∷ [])
    ∷ (b'/' ∷ b's' ∷ b'd' ∷ b'c' ∷ b'a' ∷ b'r' ∷ b'd' ∷ b'/' ∷ b'c' ∷ [])
    ∷ []

-- "d/../e"
abbrev typed_name : List ℕ
typed_name = b'd' ∷ b'/' ∷ b'.' ∷ b'.' ∷ b'/' ∷ b'e' ∷ []

-- "/sdcard/c/e"
abbrev card_file : List ℕ
card_file = sdcard ++ (b'/' ∷ b'c' ∷ b'/' ∷ b'e' ∷ [])

arrives : resolve (moves names first_directory) typed_name ≡ resolved card_file
unfolding moves change_to resolve walked standing full_texts pieces fold_parts fold_part
    append_parts trimmed_slashes trimmed_end volume_of first_volume starts_with_volume any_begins
    begins_with has_control_byte bytes_eq
arrives = refl

-- "/nvs" and "/fat/../nvs"
elsewhere :
    (resolve fat (b'/' ∷ b'n' ∷ b'v' ∷ b's' ∷ []) ≡ refused not_a_volume)
    × (resolve fat (fat ++ (b'/' ∷ b'.' ∷ b'.' ∷ b'/' ∷ b'n' ∷ b'v' ∷ b's' ∷ []))
        ≡ refused leaves_volume)
unfolding resolve walked standing full_texts pieces fold_parts fold_part append_parts
    trimmed_slashes trimmed_end volume_of first_volume starts_with_volume any_begins begins_with
    has_control_byte bytes_eq
elsewhere = (refl, refl)

moves-Inside_example : Inside (moves names first_directory) × Inside card_file
moves-Inside_example = moves-Inside names typed_name card_file arrives

abbrev fat_logs : List ℕ
fat_logs = fat ++ (b'/' ∷ b'l' ∷ [])

abbrev in_logs : Inside fat_logs
in_logs = record {
  volume = fat;
  parts = (b'l' ∷ []) ∷ [];
  known = unfold IsVolume in inl refl;
  shape = unfold joined in refl;
  plain = unfold AllPlain has_control_byte bytes_eq in (refl, tt);
}

resolve_up_example :
    (resolve fat_logs dot_dot ≡ (
      if is_empty in_logs.parts then refused leaves_volume else resolved (above fat_logs in_logs)))
    × (change_to fat_logs dot_dot
        ≡ (if is_empty in_logs.parts then (fat_logs, false) else (above fat_logs in_logs, true)))
resolve_up_example = resolve_up fat_logs in_logs
