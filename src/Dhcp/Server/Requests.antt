-- ===== src/Dhcp/Server/Requests.antt =====
-- The ways through the handling of a REQUEST, as cases that the proofs split on.
use dhcpserver.Base.{
  ◌≡◌, ltb, ntohl, inl, inr, ℕ, Bool, true, false, ◌&&◌, ◌||◌, List, [], ◌==◌, Option, none, some,
  Option-cases, Bool-cases, arith,
}
use dhcpserver.Dhcp.AllowedList.{is_client_allowed}
use dhcpserver.Dhcp.Server.{Server, Env, can_add_lease_entry, add_lease_entry}
use dhcpserver.Dhcp.Server.Packet.{Packet, Options, load_packet, parse_options}
use dhcpserver.Dhcp.Server.Select.{select_ip}
use dhcpserver.Dhcp.Server.Handler.{
  Action, assign_ip, is_valid_request, is_granted, handle_request, send_dhcp_ack, send_dhcp_nak,
  offer_address, requested_offer, send_dhcp_offer, handle_release, handle_decline, dispatch,
  Handled, ignored, answered, client_name, handle_dhcp_message,
}

-- The request names this server, or no server.
abbrev pub is_addressed : Server → Options → Bool
is_addressed s o = o.server_id == 0 || o.server_id == s.server_ip

abbrev pub is_grantable : Env → Server → Packet → Options → Bool
is_grantable env s m o =
    is_valid_request s m.chaddr (assign_ip m o) && is_granted env s m.chaddr (assign_ip m o)

pub data Requested (env : Env) (s : Server) (m : Packet) (o : Options) (name : List ℕ)
    : Server × List Action → Type 0 where
  other_server : is_addressed s o ≡ false → Requested env s m o name (s, [])
  refused :
      is_addressed s o ≡ true
      → is_grantable env s m o ≡ false
      → Requested env s m o name (s, send_dhcp_nak s m)
  no_room :
      is_addressed s o ≡ true
      → is_grantable env s m o ≡ true
      → (can_add_lease_entry env s (assign_ip m o)).1 ≡ false
      → Requested env s m o name (
        (can_add_lease_entry env s (assign_ip m o)).0,
        send_dhcp_nak (can_add_lease_entry env s (assign_ip m o)).0 m,
      )
  granted :
      is_addressed s o ≡ true
      → is_grantable env s m o ≡ true
      → (can_add_lease_entry env s (assign_ip m o)).1 ≡ true
      → Requested env s m o name (
        add_lease_entry env
            (can_add_lease_entry env s (assign_ip m o)).0
            m.chaddr
            (assign_ip m o)
            name,
        send_dhcp_ack (can_add_lease_entry env s (assign_ip m o)).0 m (assign_ip m o),
      )

pub Requested-handle_request :
    (env : Env) (s : Server) (m : Packet) (o : Options) (name : List ℕ)
    → Requested env s m o name (handle_request env s m o name)
unfolding handle_request
Requested-handle_request env s m o name = elim (Bool-cases (is_addressed s o)) [
  | inr a ↦ rw a (other_server a)
  | inl a ↦ elim (Bool-cases (is_grantable env s m o)) [
    | inr g ↦ rw (a, g) (refused a g)
    | inl g ↦ elim (Bool-cases (can_add_lease_entry env s (assign_ip m o)).1) [
      | inr r ↦ rw (a, g, r) (no_room a g r)
      | inl r ↦ rw (a, g, r) (granted a g r)
    ]
  ]
]

-- The cases of the switch on the message type, for any property of the result.
pub dispatch_cases {ℓ} :
    (P : Option (Server × List Action) → Type ℓ) (fuel : ℕ) (env : Env) (s : Server) (m : Packet)
    (o : Options) (name : List ℕ)
    → P none
    → (o.msg_type ≡ 1 → (ip : ℕ) → P (some (offer_address env s m name ip)))
    → (o.msg_type ≡ 3 → P (some (handle_request env s m o name)))
    → (o.msg_type ≡ 7 → P (some (handle_release s m)))
    → (o.msg_type ≡ 4 → P (some (handle_decline env s m o)))
    → P (some (s, []))
    → P (dispatch fuel env s m o name)
unfolding dispatch send_dhcp_offer
dispatch_cases P fuel env s m o name stuck offers requests releases declines others =
    elim (Bool-cases (o.msg_type == 1)) [
      | inl a ↦ rw a (elim (Bool-cases (requested_offer env s m.chaddr o.requested_ip == 0)) [
        | inr z ↦ rw z (offers (ground arith) _)
        | inl z ↦ rw z (elim (Option-cases (select_ip fuel env s m.chaddr)) [
          | inl n ↦ rw (n, send_dhcp_offer) stuck
          | inr (ip, e) ↦ rw (e, send_dhcp_offer) (offers (ground arith) ip)
        ])
      ])
      | inr a ↦ rw a (elim (Bool-cases (o.msg_type == 3)) [
        | inl b ↦ rw b (requests (ground arith))
        | inr b ↦ rw b (elim (Bool-cases (o.msg_type == 7)) [
          | inl c ↦ rw c (releases (ground arith))
          | inr c ↦ rw c (elim (Bool-cases (o.msg_type == 4)) [
            | inl d ↦ rw d (declines (ground arith))
            | inr d ↦ rw d others
          ])
        ])
      ])
    ]

-- The two ways through handleDhcpMessage: the packet is ignored, or a served client's is handled.
pub handle_cases {ℓ} :
    (P : Option Handled → Type ℓ) (fuel : ℕ) (env : Env) (s : Server) (buf : ℕ → ℕ) (len : ℕ)
    → P (some (ignored s))
    → (is_client_allowed (load_packet buf).chaddr s.allow_only s.allowed_list s.allowed_static_refs
          ≡ true
        → P (
            answered
              (dispatch fuel env s (load_packet buf) (parse_options buf) (client_name buf len))))
    → P (handle_dhcp_message fuel env s buf len)
unfolding handle_dhcp_message
handle_cases P fuel env s buf len dropped served = elim (Bool-cases (ltb len 240)) [
  | inl a ↦ rw a dropped
  | inr a ↦ rw a (elim (Bool-cases (ntohl (load_packet buf).cookie == 0x63825363)) [
    | inr b ↦ rw b dropped
    | inl b ↦ rw b (elim (Bool-cases ((parse_options buf).msg_type == 0)) [
      | inl c ↦ rw c dropped
      | inr c ↦
          rw c
            (elim (Bool-cases (
              is_client_allowed (load_packet buf).chaddr s.allow_only s.allowed_list
                s.allowed_static_refs)) [ inr d ↦ rw d dropped | inl d ↦ rw d (served d) ])
    ])
  ])
]
