-- ===== src/Dhcp/Server/Reads.antt =====
-- What the handler of src/dhcp/DhcpServer.cpp reads of the receive buffer.
use dhcpserver.Base.{
  ℕ, zero, suc, ◌+◌, ◌-◌, ◌≤◌, ◌<◌, ◌≡◌, refl, ap₂, false, ◌||◌, ◌∷◌, ltb, ◌==◌, if◌then◌else◌,
  arith, Bool-cases, inl, inr,
}
use dhcpserver.Dhcp.Server.{Server, Env}
use dhcpserver.Dhcp.Server.Packet.{
  Options, load32, load_bytes, load_packet, take_option, scan_options, parse_options, no_options,
  options_offset, options_bytes,
}
use dhcpserver.Dhcp.Server.Handler.{client_name, handle_dhcp_message}

-- The size of `buf` in serverLoop.
abbrev pub buffer_bytes : ℕ
buffer_bytes = 1024

-- Two memories with the same bytes in the receive buffer.
abbrev pub Agree : (ℕ → ℕ) → (ℕ → ℕ) → Type 0
Agree a b = (i : ℕ) → i < buffer_bytes → a i ≡ b i

load32-Agree : (a b : ℕ → ℕ) (i : ℕ) → Agree a b → i + 3 < buffer_bytes → load32 a i ≡ load32 b i
load32-Agree a b i g h =
    rw
      (g i (omega arith), g (i + 1) (omega arith), g (i + 2) (omega arith), g (i + 3) (omega arith))
      refl

load_bytes-Agree :
    (a b : ℕ → ℕ) (i n : ℕ) → Agree a b → i + n ≤ buffer_bytes → load_bytes a i n ≡ load_bytes b i n
unfolding load_bytes
load_bytes-Agree a b i zero g h = refl
load_bytes-Agree a b i (suc n) g h =
    ap₂ (λ x xs. x ∷ xs) (g i (omega arith)) (load_bytes-Agree a b (i + 1) n g (omega arith))

take_option-Agree :
    (a b : ℕ → ℕ) (i : ℕ) (o : Options)
    → Agree a b
    → i < options_bytes
    → take_option a i o ≡ take_option b i o
unfolding take_option
take_option-Agree a b i o g h =
    rw
      (
        g (options_offset + i) (omega arith),
        g (options_offset + i + 1) (omega arith),
        g (options_offset + i + 2) (omega arith),
        g (options_offset + i + 2 + 1) (omega arith),
        g (options_offset + i + 2 + 2) (omega arith),
        g (options_offset + i + 2 + 3) (omega arith),
      )
      refl

scan_options-Agree :
    (fuel : ℕ) (a b : ℕ → ℕ) (i : ℕ) (o : Options)
    → Agree a b
    → scan_options fuel a i o ≡ scan_options fuel b i o
unfolding scan_options
scan_options-Agree zero a b i o g = refl
scan_options-Agree (suc fuel) a b i o g = elim (Bool-cases (ltb i options_bytes)) [
  | inr out ↦ ground (arith, out)
  | inl inside ↦
      let code = g (options_offset + i) (ground arith) in
      let size = g (options_offset + i + 1) (ground arith) in
      let taken = take_option-Agree a b i o g (ground arith) in
      rw (code, size, taken, inside)
        (ap₂
          (λ x y.
            if b (options_offset + i) == 255 || false
            then o
            else if b (options_offset + i) == 0
            then x
            else y)
          (scan_options-Agree fuel a b (i + 1) o g)
          (scan_options-Agree fuel a b (i + (b (options_offset + i + 1) + 2)) (take_option b i o)
            g))
]

load_packet-Agree : (a b : ℕ → ℕ) → Agree a b → load_packet a ≡ load_packet b
unfolding load_packet
load_packet-Agree a b g =
    rw
      (
        load32-Agree a b 4 g (omega arith),
        load32-Agree a b 12 g (omega arith),
        load32-Agree a b 24 g (omega arith),
        load32-Agree a b 236 g (omega arith),
        load_bytes-Agree a b 28 6 g (omega arith),
      )
      refl

client_name-Agree :
    (a b : ℕ → ℕ) (len : ℕ) → Agree a b → len ≤ buffer_bytes → client_name a len ≡ client_name b len
unfolding client_name
client_name-Agree a b len g h = elim (Bool-cases (ltb options_offset len)) [
  | inr short ↦ ground (arith, short)
  | inl long ↦ rw (load_bytes-Agree a b options_offset (len - options_offset) g (ground arith)) refl
]

-- What the handler does with a datagram depends on nothing outside the receive buffer of 1024
-- bytes, whatever lengths the options of the packet claim.
pub handle_dhcp_message-within :
    (fuel : ℕ) (env : Env) (s : Server) (a b : ℕ → ℕ) (len : ℕ)
    → Agree a b
    → len ≤ buffer_bytes
    → handle_dhcp_message fuel env s a len ≡ handle_dhcp_message fuel env s b len
unfolding handle_dhcp_message parse_options
handle_dhcp_message-within fuel env s a b len g h =
    rw
      (
        load_packet-Agree a b g,
        scan_options-Agree (options_bytes + 1) a b 0 no_options g,
        client_name-Agree a b len g h,
      )
      refl
