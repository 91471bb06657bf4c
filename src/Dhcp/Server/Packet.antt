-- ===== src/Dhcp/Server/Packet.antt =====
-- DhcpMessage and the option loop of handleDhcpMessage. The receive buffer is a function from the
-- index to the byte: it has 1024 bytes and keeps what earlier packets left behind the last one.
use dhcpserver.Base.{
  ℕ, zero, suc, ◌+◌, not, ◌&&◌, ◌||◌, List, [], ◌∷◌, ltb, ◌==◌, if◌then◌else◌, word,
}

-- Offsets of the packed structure.
abbrev pub options_offset : ℕ
options_offset = 240

abbrev pub options_bytes : ℕ
options_bytes = 308

pub record Packet : Type 0 where
  pub xid : ℕ
  pub ciaddr : ℕ
  pub giaddr : ℕ
  pub chaddr : List ℕ
  pub cookie : ℕ

-- A uint32_t member at an offset, as it stands in memory.
abbrev pub load32 : (ℕ → ℕ) → ℕ → ℕ
load32 buf i = word (buf i) (buf (i + 1)) (buf (i + 2)) (buf (i + 3))

unfoldable pub load_bytes : (ℕ → ℕ) → ℕ → ℕ → List ℕ
load_bytes buf i zero = []
load_bytes buf i (suc n) = buf i ∷ load_bytes buf (i + 1) n

unfoldable pub load_packet : (ℕ → ℕ) → Packet
unfolding load_bytes
load_packet buf = record {
  xid = load32 buf 4;
  ciaddr = load32 buf 12;
  giaddr = load32 buf 24;
  chaddr = load_bytes buf 28 6;
  cookie = load32 buf 236;
}

-- What the option loop collects.
pub record Options : Type 0 where
  pub msg_type : ℕ
  pub requested_ip : ℕ
  pub server_id : ℕ

abbrev pub no_options : Options
no_options = record { msg_type = 0; requested_ip = 0; server_id = 0 }

-- One option at the position `i`, which is neither a pad nor the end.
unfoldable pub take_option : (ℕ → ℕ) → ℕ → Options → Options
take_option buf i o =
    let code = buf (options_offset + i) in
    let n = buf (options_offset + i + 1) in
    let at = options_offset + i + 2 in
    if code == 53 && n == 1
    then record o { msg_type = buf at }
    else if code == 50 && n == 4
    then record o { requested_ip = load32 buf at }
    else if code == 54 && n == 4
    then record o { server_id = load32 buf at }
    else o

-- The loop, from the position `i`.
unfoldable pub scan_options : ℕ → (ℕ → ℕ) → ℕ → Options → Options
scan_options zero buf i o = o
scan_options (suc fuel) buf i o =
    let code = buf (options_offset + i) in
    let past_pad = scan_options fuel buf (i + 1) o in
    let past_option =
      scan_options fuel buf (i + (buf (options_offset + i + 1) + 2)) (take_option buf i o) in
    if code == 255 || not (ltb i options_bytes)
    then o
    else if code == 0
    then past_pad
    else past_option

-- Each round moves on by one byte at least, so one round more than there are bytes is enough.
unfoldable pub parse_options : (ℕ → ℕ) → Options
parse_options buf = scan_options (options_bytes + 1) buf 0 no_options
