-- ===== src/Dhcp/Server/Acks.antt =====
-- When an address is acknowledged, and what the table then says.
use dhcpserver.Base.{
  ℕ, ◌+◌, ◌%◌, ◌≡◌, refl, subst, ◌≢◌, inl, inr, true, false, ◌||◌, List, [], ◌∷◌, Option, none,
  some, ◌==◌, arith, Bool-cases, Option-cases, bytes_eq_iff, u32_mod,
}
use dhcpserver.Dhcp.Leases.{Lease, find}
use dhcpserver.Dhcp.Leases.Laws.{find-insert_self}
use dhcpserver.Dhcp.Server.{
  Server, Env, request, add_lease, probe_ip, time_sec, address_declined, can_add_lease_entry,
  add_lease_entry, reserve_offer, is_ip_in_range, is_static_binding_for_mac,
}
use dhcpserver.Dhcp.Server.Packet.{Packet, Options, load_packet, parse_options}
use dhcpserver.Dhcp.Server.Handler.{
  Action, send, log_rest, Reply, offer, ack, EventKind, Handled, assign_ip, is_valid_request,
  is_granted, send_dhcp_ack, send_dhcp_nak, lease_reply, offer_address, handle_release,
  handle_decline, dispatch, answered, client_name, handle_dhcp_message,
}
use dhcpserver.Dhcp.Server.Requests.{
  Requested, other_server, refused, no_room, granted, Requested-handle_request, dispatch_cases,
  handle_cases,
}

-- Nobody else is known to have the address: it is the client's by a static binding, or the table
-- gives it to the client, or nobody holds it, it is not held down, and a probe meets no other owner.
pub data IsFreeFor (env : Env) (s : Server) (mac : List ℕ) (ip : ℕ) : Type 0 where
  static : is_static_binding_for_mac s mac ip ≡ true → IsFreeFor env s mac ip
  leased : (l : Lease) → find ip s.leases ≡ some l → l.mac ≡ mac → IsFreeFor env s mac ip
  unheld :
      find ip s.leases ≡ none
      → address_declined env request s ip ≡ false
      → ((owner : List ℕ) → probe_ip env request ip ≡ some owner → owner ≡ mac)
      → IsFreeFor env s mac ip

-- What an acknowledgement rests on, and the lease that it leaves.
pub record IsGrounded (env : Env) (s : Server) (m : Packet) (name : List ℕ) (t : Server) (r : Reply)
    : Type 0 where
  pub for_client : (r.chaddr ≡ m.chaddr) × (r.xid ≡ m.xid)
  pub proper : (r.yiaddr ≢ 0) × (r.yiaddr ≢ s.server_ip)
  pub served : (is_ip_in_range s r.yiaddr || is_static_binding_for_mac s m.chaddr r.yiaddr) ≡ true
  pub free : IsFreeFor env s m.chaddr r.yiaddr
  pub recorded :
      find r.yiaddr t.leases
      ≡ some (record {
        mac = m.chaddr;
        ip = r.yiaddr;
        expiry = (time_sec env add_lease + s.lease_time_sec) % u32_mod;
        hostname = name;
      })

-- Every acknowledgement among the actions is grounded.
abbrev pub AcksGrounded : Env → Server → Packet → List ℕ → Server → List Action → Type 0
AcksGrounded env s m name t [] = Unit {0}
AcksGrounded env s m name t (send r ∷ rest) =
    (r.kind ≡ ack → IsGrounded env s m name t r) × AcksGrounded env s m name t rest
AcksGrounded env s m name t (log_rest e ∷ rest) = AcksGrounded env s m name t rest

IsFreeFor-is_granted :
    (env : Env) (s : Server) (mac : List ℕ) (ip : ℕ)
    → is_granted env s mac ip ≡ true
    → IsFreeFor env s mac ip
unfolding is_granted
IsFreeFor-is_granted env s mac ip h = elim (Bool-cases (is_static_binding_for_mac s mac ip)) [
  | inl b ↦ static b
  | inr b ↦ elim (Option-cases (find ip s.leases)) [
    | inr (l, e) ↦ leased l e ((bytes_eq_iff l.mac mac).0 (ground (arith, b, e)))
    | inl e ↦
        unheld e (ground (arith, b, e))
          (λ owner q. (bytes_eq_iff owner mac).0 (ground (arith, b, e, q)))
  ]
]

can_add_lease_entry_time :
    (env : Env) (s : Server) (ip : ℕ)
    → (can_add_lease_entry env s ip).0.lease_time_sec ≡ s.lease_time_sec
unfolding can_add_lease_entry
can_add_lease_entry_time env s ip = ground arith

abbrev Acked : Env → Server → Packet → List ℕ → Option (Server × List Action) → Type 0
Acked env s m name none = Unit {0}
Acked env s m name (some (t, actions)) = AcksGrounded env s m name t actions

Requested-Acked :
    {env : Env} {s : Server} {m : Packet} {o : Options} {name : List ℕ} {r : Server × List Action}
    → Requested env s m o name r
    → Acked env s m name (some r)
unfolding send_dhcp_nak send_dhcp_ack lease_reply add_lease_entry is_valid_request
Requested-Acked (other_server a) = tt
Requested-Acked (refused a g) = ((λ e. cc), tt)
Requested-Acked (no_room a g r) = ((λ e. cc), tt)
Requested-Acked {env} {s} {m} {o} (granted a g r) = (
  (λ e. record {
    for_client = (refl, refl);
    proper = (ground arith, ground arith);
    served = ground arith;
    free = IsFreeFor-is_granted env s m.chaddr (assign_ip m o) (ground arith);
    recorded =
        rw (can_add_lease_entry_time env s (assign_ip m o)) (find-insert_self (assign_ip m o) _ _);
  }),
  tt,
)

lease_reply-Acked :
    (env : Env) (s t u : Server) (m : Packet) (name : List ℕ) (ip : ℕ) (event : EventKind)
    → AcksGrounded env s m name t (lease_reply u offer event m ip)
unfolding lease_reply
lease_reply-Acked env s t u m name ip event = ((λ e. cc), tt)

offer_address-Acked :
    (env : Env) (s : Server) (m : Packet) (name : List ℕ) (ip : ℕ)
    → Acked env s m name (some (offer_address env s m name ip))
unfolding offer_address
offer_address-Acked env s m name ip = elim (Bool-cases (ip == 0)) [
  | inl z ↦ rw z tt
  | inr z ↦ elim (Bool-cases (reserve_offer env s m.chaddr ip name).1) [
    | inr r ↦ rw (z, r) tt
    | inl r ↦ rw (z, r) (lease_reply-Acked env s _ _ m name ip _)
  ]
]

handle_release-Acked :
    (env : Env) (s : Server) (m : Packet) (name : List ℕ)
    → Acked env s m name (some (handle_release s m))
unfolding handle_release
handle_release-Acked env s m name = elim (Option-cases (find m.ciaddr s.leases)) [
  | inl e ↦ rw (e, handle_release) tt
  | inr (l, e) ↦ rw (e, handle_release) tt
]

dispatch-Acked :
    (fuel : ℕ) (env : Env) (s : Server) (m : Packet) (o : Options) (name : List ℕ)
    → Acked env s m name (dispatch fuel env s m o name)
unfolding handle_decline
dispatch-Acked fuel env s m o name =
    dispatch_cases (Acked env s m name) fuel env s m o name tt
      (λ _ ip. offer_address-Acked env s m name ip)
      (λ _. Requested-Acked (Requested-handle_request env s m o name))
      (λ _. handle_release-Acked env s m name) (λ _. tt) tt

abbrev HandledAcked : Env → Server → (ℕ → ℕ) → ℕ → Option Handled → Type 0
HandledAcked env s buf len none = Unit {0}
HandledAcked env s buf len (some h) =
    AcksGrounded env s (load_packet buf) (client_name buf len) h.server h.actions

answered-Acked :
    (env : Env) (s : Server) (buf : ℕ → ℕ) (len : ℕ) (r : Option (Server × List Action))
    → Acked env s (load_packet buf) (client_name buf len) r
    → HandledAcked env s buf len (answered r)
answered-Acked env s buf len none a = tt
answered-Acked env s buf len (some (t, actions)) a = a

-- Whatever packet arrives, every ACK that is sent goes to the sender under its transaction id, is
-- for an address other than 0 and the server's own that lies in the range or is bound to the
-- client, and that is free for the client: bound to it, leased to it, or held by nobody, not held
-- down and met by no other owner in a probe; and the table then holds the lease of that address for
-- that client, for the whole lease time.
pub handle_dhcp_message-AcksGrounded :
    (fuel : ℕ) (env : Env) (s : Server) (buf : ℕ → ℕ) (len : ℕ) (h : Handled)
    → handle_dhcp_message fuel env s buf len ≡ some h
    → AcksGrounded env s (load_packet buf) (client_name buf len) h.server h.actions
handle_dhcp_message-AcksGrounded fuel env s buf len h e = subst (HandledAcked env s buf len) e (
    handle_cases (HandledAcked env s buf len) fuel env s buf len tt (λ _.
      answered-Acked env s buf len
        (dispatch fuel env s (load_packet buf) (parse_options buf) (client_name buf len))
        (dispatch-Acked fuel env s (load_packet buf) (parse_options buf) (client_name buf len))))
