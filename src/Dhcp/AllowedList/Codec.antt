-- ===== src/Dhcp/AllowedList/Codec.antt =====
-- src/dhcp/DhcpAllowedList.cpp and src/core/StorageText.h: the list of allowed computers as the text
-- that the settings keep, a line "mac|name|enabled" for each.
use dhcpserver.Base.{
  is_empty, ℕ, ◌+◌, Bool, true, false, not, ◌&&◌, ◌||◌, List, [], ◌∷◌, ◌++◌, Option, none, some,
  leb, ◌==◌, if◌then◌else◌, length, take, map, bytes_eq, pieces,
}
use dhcpserver.Dhcp.Mac.{is_space, parse_mac, format_mac, normalize_mac}
use dhcpserver.Dhcp.AllowedList.{AllowedComputer, max_entries}

-- kMaxNameLen
abbrev pub max_name_len : ℕ
max_name_len = 20

unfoldable pub trim_begin : List ℕ → List ℕ
trim_begin [] = []
trim_begin (c ∷ cs) = if is_space c then trim_begin cs else c ∷ cs

unfoldable pub trim_end : List ℕ → List ℕ
trim_end [] = []
trim_end (c ∷ cs) = if is_empty (trim_end cs) && is_space c then [] else c ∷ trim_end cs

unfoldable pub trim : List ℕ → List ℕ
trim text = trim_end (trim_begin text)

abbrev pub blanked : ℕ → ℕ
blanked c = if c == b'|' || c == 10 || c == 13 then 32 else c

unfoldable pub storage_field_text : List ℕ → List ℕ
storage_field_text value = map blanked (trim value)

unfoldable pub sanitize_name : List ℕ → List ℕ
sanitize_name name = take max_name_len (storage_field_text name)

abbrev pub flag : Bool → List ℕ
flag true = b'1' ∷ []
flag false = b'0' ∷ []

abbrev pub line_of : List ℕ → AllowedComputer → List ℕ
line_of bytes entry =
    format_mac bytes ++ (b'|' ∷ (sanitize_name entry.name ++ (b'|' ∷ flag entry.enabled)))

abbrev pub end_line : List ℕ → List ℕ
end_line [] = []
end_line (c ∷ cs) = (c ∷ cs) ++ (10 ∷ [])

-- The loop of serialize, with the text so far and the number of lines in it.
unfoldable pub serialize_from : List AllowedComputer → List ℕ → ℕ → List ℕ
serialize_from [] out written = out
serialize_from (entry ∷ rest) out written =
    if leb max_entries written then out else elim (parse_mac entry.mac) [
      | none ↦ serialize_from rest out written
      | some bytes ↦ serialize_from rest (end_line out ++ line_of bytes entry) (written + 1)
    ]

unfoldable pub serialize : List AllowedComputer → List ℕ
serialize list = serialize_from list [] 0

-- serializedBytes
unfoldable pub serialized_bytes : List AllowedComputer → ℕ
serialized_bytes list = length (serialize list)

-- What stands before and behind the first separator of a text, by find and substr.
abbrev pub after : ℕ → Option (List ℕ × List ℕ) → Option (List ℕ × List ℕ)
after c none = none
after c (some (head, tail)) = some (c ∷ head, tail)

unfoldable pub cut : ℕ → List ℕ → Option (List ℕ × List ℕ)
cut sep [] = none
cut sep (c ∷ cs) = if c == sep then some ([], cs) else after c (cut sep cs)

abbrev pub computer : List ℕ → List ℕ → Bool → AllowedComputer
computer mac name enabled = record { mac = mac; name = name; enabled = enabled }

-- The fields of one line of parse.
unfoldable pub entry_of : List ℕ → AllowedComputer
entry_of line = elim (cut b'|' line) [
  | none ↦ computer (normalize_mac line) [] true
  | some (mac, rest) ↦ elim (cut b'|' rest) [
    | none ↦ computer (normalize_mac mac) (sanitize_name rest) true
    | some (name, enabled) ↦
        computer (normalize_mac mac) (sanitize_name name)
          (not (bytes_eq (trim enabled) (b'0' ∷ [])))
  ]
]

abbrev pub kept : List AllowedComputer → AllowedComputer → List AllowedComputer
kept out entry = if is_empty entry.mac then out else out ++ (entry ∷ [])

abbrev pub with_line : List ℕ → List AllowedComputer → List AllowedComputer
with_line line out = if is_empty line then out else kept out (entry_of line)

-- The loop of parse over the lines of the text.
unfoldable pub parse_lines : List (List ℕ) → List AllowedComputer → List AllowedComputer
parse_lines [] out = out
parse_lines (line ∷ rest) out =
    if leb max_entries (length out) then out else parse_lines rest (with_line (trim line) out)

unfoldable pub parse : List ℕ → List AllowedComputer
parse text = parse_lines (pieces 10 text) []
