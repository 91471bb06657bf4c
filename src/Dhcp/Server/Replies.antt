-- ===== src/Dhcp/Server/Replies.antt =====
-- What is sent, and to whom.
use dhcpserver.Base.{
  ℕ, ◌+◌, ◌≤◌, ◌≡◌, refl, subst, inl, inr, List, [], ◌∷◌, Option, none, some, ◌==◌, arith,
  Bool-cases, Option-cases,
}
use dhcpserver.Dhcp.Leases.{find}
use dhcpserver.Dhcp.Server.{Server, Env, reserve_offer}
use dhcpserver.Dhcp.Server.Packet.{Packet, Options, load_packet, parse_options}
use dhcpserver.Dhcp.Server.Handler.{
  Action, send, log_rest, Reply, MessageType, offer, ack, nak, Handled, destination, send_dhcp_ack,
  send_dhcp_nak, lease_reply, offer_address, handle_release, handle_decline, dispatch, answered,
  client_name, handle_dhcp_message,
}
use dhcpserver.Dhcp.Server.Requests.{
  Requested, other_server, refused, no_room, granted, Requested-handle_request, dispatch_cases,
  handle_cases,
}

-- The kinds of reply that a message type may be answered by.
abbrev pub Answers : ℕ → MessageType → Type 0
Answers type offer = type ≡ 1
Answers type ack = type ≡ 3
Answers type nak = type ≡ 3

-- The reply answers this packet, and goes to its relay or to everybody.
pub record IsFitting (m : Packet) (o : Options) (r : Reply) : Type 0 where
  pub kind : Answers o.msg_type r.kind
  pub client : r.chaddr ≡ m.chaddr
  pub transaction : r.xid ≡ m.xid
  pub route : r.dest ≡ destination m.giaddr

abbrev pub AllFit : Packet → Options → List Action → Type 0
AllFit m o [] = Unit {0}
AllFit m o (send r ∷ rest) = IsFitting m o r × AllFit m o rest
AllFit m o (log_rest e ∷ rest) = AllFit m o rest

abbrev pub sent_count : List Action → ℕ
sent_count [] = 0
sent_count (send r ∷ rest) = sent_count rest + 1
sent_count (log_rest e ∷ rest) = sent_count rest

abbrev pub FitsOnce : Packet → Options → List Action → Type 0
FitsOnce m o actions = AllFit m o actions × (sent_count actions ≤ 1)

abbrev ResultFits : Packet → Options → Option (Server × List Action) → Type 0
ResultFits m o none = Unit {0}
ResultFits m o (some r) = FitsOnce m o r.1

offer_address-Fits :
    (env : Env) (s : Server) (m : Packet) (o : Options) (name : List ℕ) (ip : ℕ)
    → o.msg_type ≡ 1
    → ResultFits m o (some (offer_address env s m name ip))
unfolding offer_address lease_reply
offer_address-Fits env s m o name ip e = elim (Bool-cases (ip == 0)) [
  | inl z ↦ rw z (tt, omega arith)
  | inr z ↦ elim (Bool-cases (reserve_offer env s m.chaddr ip name).1) [
    | inr r ↦ rw (z, r) (tt, omega arith)
    | inl r ↦
        rw (z, r)
          ((record { kind = e; client = refl; transaction = refl; route = refl }, tt), omega arith)
  ]
]

Requested-Fits :
    {env : Env} {s : Server} {m : Packet} {o : Options} {name : List ℕ} {r : Server × List Action}
    → o.msg_type ≡ 3
    → Requested env s m o name r
    → FitsOnce m o r.1
unfolding send_dhcp_nak send_dhcp_ack lease_reply
Requested-Fits e (other_server a) = (tt, omega arith)
Requested-Fits e (refused a g) =
    ((record { kind = e; client = refl; transaction = refl; route = refl }, tt), omega arith)
Requested-Fits e (no_room a g r) =
    ((record { kind = e; client = refl; transaction = refl; route = refl }, tt), omega arith)
Requested-Fits e (granted a g r) =
    ((record { kind = e; client = refl; transaction = refl; route = refl }, tt), omega arith)

handle_release-Fits :
    (s : Server) (m : Packet) (o : Options) → ResultFits m o (some (handle_release s m))
unfolding handle_release
handle_release-Fits s m o = elim (Option-cases (find m.ciaddr s.leases)) [
  | inl e ↦ rw (e, handle_release) (tt, omega arith)
  | inr (l, e) ↦ rw (e, handle_release) (tt, omega arith)
]

dispatch-Fits :
    (fuel : ℕ) (env : Env) (s : Server) (m : Packet) (o : Options) (name : List ℕ)
    → ResultFits m o (dispatch fuel env s m o name)
unfolding handle_decline
dispatch-Fits fuel env s m o name =
    dispatch_cases (ResultFits m o) fuel env s m o name tt
      (λ e ip. offer_address-Fits env s m o name ip e)
      (λ e. Requested-Fits e (Requested-handle_request env s m o name))
      (λ _. handle_release-Fits s m o) (λ _. (tt, omega arith)) (tt, omega arith)

abbrev HandledFits : (ℕ → ℕ) → Option Handled → Type 0
HandledFits buf none = Unit {0}
HandledFits buf (some h) = FitsOnce (load_packet buf) (parse_options buf) h.actions

answered-Fits :
    (buf : ℕ → ℕ) (r : Option (Server × List Action))
    → ResultFits (load_packet buf) (parse_options buf) r
    → HandledFits buf (answered r)
answered-Fits buf none f = tt
answered-Fits buf (some (t, actions)) f = f

-- Whatever packet arrives, at most one reply is sent, and it fits the packet: an OFFER only to a
-- DISCOVER, an ACK or a NAK only to a REQUEST, each for the sender's hardware address and
-- transaction, to the packet's relay, or to everybody where it names none.
pub handle_dhcp_message-Fits :
    (fuel : ℕ) (env : Env) (s : Server) (buf : ℕ → ℕ) (len : ℕ) (h : Handled)
    → handle_dhcp_message fuel env s buf len ≡ some h
    → FitsOnce (load_packet buf) (parse_options buf) h.actions
handle_dhcp_message-Fits fuel env s buf len h e = subst (HandledFits buf) e (
    handle_cases (HandledFits buf) fuel env s buf len (tt, omega arith)
      (λ _.
        answered-Fits buf
          (dispatch fuel env s (load_packet buf) (parse_options buf) (client_name buf len))
          (dispatch-Fits fuel env s (load_packet buf) (parse_options buf) (client_name buf len))))
