-- ===== src/Dhcp/Server/Filter.antt =====
-- The access filter of the other services (isClientAddressAllowed) against the DHCP policy.
use dhcpserver.Base.{
  ℕ, ◌≡◌, refl, subst, ap, ◌∙◌, inl, inr, true, Bool, List, [], ◌∷◌, Option, none, some, ◌==◌,
  arith, Bool-cases, Option-cases,
}
use dhcpserver.Dhcp.AllowedList.{is_client_allowed, is_address_allowed}
use dhcpserver.Dhcp.Leases.{Lease, find}
use dhcpserver.Dhcp.Leases.Laws.{find-insert_self}
use dhcpserver.Dhcp.Server.{Server, Env, can_add_lease_entry, add_lease_entry, reserve_offer}
use dhcpserver.Dhcp.Server.Packet.{Packet, Options, load_packet, parse_options}
use dhcpserver.Dhcp.Server.Handler.{
  Action, send, log_rest, ack, Handled, assign_ip, send_dhcp_ack, send_dhcp_nak, lease_reply,
  offer_address, handle_release, handle_decline, dispatch, answered, client_name,
  handle_dhcp_message,
}
use dhcpserver.Dhcp.Server.Requests.{
  Requested, other_server, refused, no_room, granted, Requested-handle_request, dispatch_cases,
  handle_cases,
}
use dhcpserver.Dhcp.Server.Queries.{get_mac_by_ip, owner_of, is_client_address_allowed}

-- Every acknowledged address passes the filter of the server `t`.
abbrev pub AllPass : (ℕ → Option (List ℕ)) → Bool → Server → List Action → Type 0
AllPass arp only t [] = Unit {0}
AllPass arp only t (send r ∷ rest) =
    (r.kind ≡ ack → is_client_address_allowed arp t r.yiaddr only ≡ true) × AllPass arp only t rest
AllPass arp only t (log_rest e ∷ rest) = AllPass arp only t rest

-- The members that the policy reads.
record SamePolicy (s t : Server) : Type 0 where
  list : t.allowed_list ≡ s.allowed_list
  refs : t.allowed_static_refs ≡ s.allowed_static_refs

SamePolicy-can_add_lease_entry :
    (env : Env) (s : Server) (ip : ℕ) → SamePolicy s (can_add_lease_entry env s ip).0
unfolding can_add_lease_entry
SamePolicy-can_add_lease_entry env s ip = record { list = ground arith; refs = ground arith }

owner_leased :
    (arp : ℕ → Option (List ℕ)) (t : Server) (ip : ℕ) (l : Lease)
    → find ip t.leases ≡ some l
    → owner_of arp t ip ≡ some l.mac
unfolding owner_of get_mac_by_ip
owner_leased arp t ip l e = rw (mac_leased, owner_of) refl
  where
    mac_leased : get_mac_by_ip t ip ≡ some l.mac
    mac_leased = rw (e, get_mac_by_ip) refl

leased_passes :
    (arp : ℕ → Option (List ℕ)) (s t : Server) (ip : ℕ) (l : Lease) (mac : List ℕ)
    → SamePolicy s t
    → find ip t.leases ≡ some l
    → l.mac ≡ mac
    → is_client_allowed mac s.allow_only s.allowed_list s.allowed_static_refs ≡ true
    → is_client_address_allowed arp t ip s.allow_only ≡ true
unfolding is_client_address_allowed is_address_allowed
leased_passes arp s t ip l mac p e q a = elim (Bool-cases s.allow_only) [
  | inr off ↦ rw off refl
  | inl on ↦
      let owned = owner_leased arp t ip l e ∙ ap (λ x. some x) q in
      let allowed : is_client_allowed mac true s.allowed_list s.allowed_static_refs ≡ true =
        subst (λ b. is_client_allowed mac b s.allowed_list s.allowed_static_refs ≡ true) on a in
      rw (on, owned, is_address_allowed) (rw (p.list, p.refs) allowed)
]

abbrev Passing : (ℕ → Option (List ℕ)) → Bool → Option (Server × List Action) → Type 0
Passing arp only none = Unit {0}
Passing arp only (some (t, actions)) = AllPass arp only t actions

Requested-Passing :
    {env : Env} {s : Server} {m : Packet} {o : Options} {name : List ℕ} {r : Server × List Action}
    (arp : ℕ → Option (List ℕ))
    → is_client_allowed m.chaddr s.allow_only s.allowed_list s.allowed_static_refs ≡ true
    → Requested env s m o name r
    → Passing arp s.allow_only (some r)
unfolding send_dhcp_nak send_dhcp_ack lease_reply add_lease_entry
Requested-Passing arp a (other_server _) = tt
Requested-Passing arp a (refused _ _) = ((λ e. cc), tt)
Requested-Passing arp a (no_room _ _ _) = ((λ e. cc), tt)
Requested-Passing {env} {s} {m} {o} arp a (granted _ _ _) = (
  (λ _.
      let kept = SamePolicy-can_add_lease_entry env s (assign_ip m o) in
      leased_passes arp s _ (assign_ip m o) _ m.chaddr
        (record { list = kept.list; refs = kept.refs }) (find-insert_self (assign_ip m o) _ _) refl
        a),
  tt,
)

offer_address-Passing :
    (arp : ℕ → Option (List ℕ)) (only : Bool) (env : Env) (s : Server) (m : Packet) (name : List ℕ)
    (ip : ℕ)
    → Passing arp only (some (offer_address env s m name ip))
unfolding offer_address lease_reply
offer_address-Passing arp only env s m name ip = elim (Bool-cases (ip == 0)) [
  | inl z ↦ rw z tt
  | inr z ↦ elim (Bool-cases (reserve_offer env s m.chaddr ip name).1) [
    | inr r ↦ rw (z, r) tt
    | inl r ↦ rw (z, r) ((λ e. cc), tt)
  ]
]

handle_release-Passing :
    (arp : ℕ → Option (List ℕ)) (only : Bool) (s : Server) (m : Packet)
    → Passing arp only (some (handle_release s m))
unfolding handle_release
handle_release-Passing arp only s m = elim (Option-cases (find m.ciaddr s.leases)) [
  | inl e ↦ rw (e, handle_release) tt
  | inr (l, e) ↦ rw (e, handle_release) tt
]

dispatch-Passing :
    (arp : ℕ → Option (List ℕ)) (fuel : ℕ) (env : Env) (s : Server) (m : Packet) (o : Options)
    (name : List ℕ)
    → is_client_allowed m.chaddr s.allow_only s.allowed_list s.allowed_static_refs ≡ true
    → Passing arp s.allow_only (dispatch fuel env s m o name)
unfolding handle_decline
dispatch-Passing arp fuel env s m o name a =
    dispatch_cases (Passing arp s.allow_only) fuel env s m o name tt
      (λ _ ip. offer_address-Passing arp s.allow_only env s m name ip)
      (λ _. Requested-Passing arp a (Requested-handle_request env s m o name))
      (λ _. handle_release-Passing arp s.allow_only s m) (λ _. tt) tt

abbrev HandledPassing : (ℕ → Option (List ℕ)) → Bool → Option Handled → Type 0
HandledPassing arp only none = Unit {0}
HandledPassing arp only (some h) = AllPass arp only h.server h.actions

answered-Passing :
    (arp : ℕ → Option (List ℕ)) (only : Bool) (r : Option (Server × List Action))
    → Passing arp only r
    → HandledPassing arp only (answered r)
answered-Passing arp only none p = tt
answered-Passing arp only (some (t, actions)) p = p

-- A client that was given an address passes the access filter with it, when the filter is asked with
-- the switch of the DHCP server: when an ACK is sent for an address, the query with the switch
-- `allow_only` of the server that took the packet allows that address on the server that the packet
-- leaves, whatever the ARP cache holds. A service that asks with another switch is not covered.
pub handle_dhcp_message-AllPass :
    (arp : ℕ → Option (List ℕ)) (fuel : ℕ) (env : Env) (s : Server) (buf : ℕ → ℕ) (len : ℕ)
    (h : Handled)
    → handle_dhcp_message fuel env s buf len ≡ some h
    → AllPass arp s.allow_only h.server h.actions
handle_dhcp_message-AllPass arp fuel env s buf len h e = subst (HandledPassing arp s.allow_only) e (
    handle_cases (HandledPassing arp s.allow_only) fuel env s buf len tt (λ a.
      answered-Passing arp s.allow_only
        (dispatch fuel env s (load_packet buf) (parse_options buf) (client_name buf len))
        (dispatch-Passing arp fuel env s (load_packet buf) (parse_options buf) (client_name buf len)
          a)))
