-- ===== src/Dhcp/Server/Unchecked.antt =====
-- Packets whose addresses are not checked against the leases: an offer of another client's lease, and
-- a release in another client's name.
use dhcpserver.Base.{
  ℕ, ◌+◌, ◌%◌, ◌≤◌, ◌≡◌, refl, ◌∙◌, ◌≢◌, true, false, List, none, some, ltb, ◌<◌, ◌⊎◌, inl, inr,
  Bool-cases, ◌==◌, arith, u32_mod,
}
use dhcpserver.Dhcp.Leases.{Lease, find, insert}
use dhcpserver.Dhcp.Leases.Laws.{IsTable, find-erase, find-insert_self}
use dhcpserver.Dhcp.Server.{
  Server, Env, named, requested, existing, reserve, time_sec, offer_hold_sec, can_add_lease_entry,
  reserve_entry, reserve_offer, is_ip_in_range, address_declined, probe_ip,
}
use dhcpserver.Dhcp.Server.Isolation.{named-mac, named-expiry}
use dhcpserver.Dhcp.Server.Packet.{Packet, Options}
use dhcpserver.Dhcp.Server.Handler.{
  Action, offer, offer_event, lease_reply, requested_offer, offer_address, send_dhcp_offer,
  handle_release, dispatch,
}

handled_release :
    (s : Server) (m : Packet) (l : Lease)
    → IsTable s.leases
    → find m.ciaddr s.leases ≡ some l
    → find m.ciaddr (handle_release s m).0.leases ≡ none
unfolding handle_release
handled_release s m l t f =
    rw (f, handle_release) (find-erase m.ciaddr m.ciaddr s.leases t ∙ ground arith)

-- A RELEASE is not checked against its sender: a lease goes when any allowed client names its
-- address, although the lease is another client's.
pub release_by_another :
    (fuel : ℕ) (env : Env) (s : Server) (m : Packet) (o : Options) (name : List ℕ) (l : Lease)
    → IsTable s.leases
    → o.msg_type ≡ 7
    → find m.ciaddr s.leases ≡ some l
    → l.mac ≢ m.chaddr
    → (r : Server × List Action) × (dispatch fuel env s m o name ≡ some r)
      × (find m.ciaddr r.0.leases ≡ none)
unfolding dispatch
release_by_another fuel env s m o name l t type f other =
    (handle_release s m, rw type refl, handled_release s m l t f)

offered_as_asked :
    (env : Env) (s : Server) (mac : List ℕ) (ip : ℕ)
    → ip ≢ 0
    → is_ip_in_range s ip ≡ true
    → address_declined env requested s ip ≡ false
    → probe_ip env requested ip ≡ none
    → requested_offer env s mac ip ≡ ip
unfolding requested_offer
offered_as_asked env s mac ip nz range fresh silent = ground arith

abbrev offered_lease : Env → List ℕ → ℕ → List ℕ → Lease
offered_lease env mac ip name = record {
  mac = mac;
  ip = ip;
  expiry = (time_sec env reserve + offer_hold_sec) % u32_mod;
  hostname = name;
}

-- The end of the hold of an offer that is made now.
abbrev pub hold_end : Env → ℕ
hold_end env = (time_sec env existing + offer_hold_sec) % u32_mod

-- Whose lease the table has of an address after an offer of it: that of the new client when the
-- lease ends within the hold, and otherwise that of the holder as before.
abbrev pub Reserved : Env → List ℕ → Lease → Lease → Type 0
Reserved env mac l l' =
    ((l.expiry ≤ hold_end env) × (l'.mac ≡ mac))
    ⊎ ((hold_end env < l.expiry) × (l'.mac ≡ l.mac) × (l'.expiry ≡ l.expiry))

reserve_offer-Reserved :
    (env : Env) (s : Server) (mac : List ℕ) (ip : ℕ) (name : List ℕ) (l : Lease)
    → find ip s.leases ≡ some l
    → (t : Server) × (l' : Lease) × (reserve_offer env s mac ip name ≡ (t, true))
      × (find ip t.leases ≡ some l')
      × Reserved env mac l l'
unfolding reserve_offer reserve_entry can_add_lease_entry
reserve_offer-Reserved env s mac ip name l held = elim (Bool-cases (ltb (hold_end env) l.expiry)) [
  | inl long ↦ (
    record s { leases = insert ip (named l name) s.leases },
    named l name,
    rw (held, long, reserve_offer) refl,
    find-insert_self ip _ s.leases,
    inr (ground (arith, long), named-mac l name, named-expiry l name),
  )
  | inr brief ↦ (
    record s { leases = insert ip (offered_lease env mac ip name) s.leases },
    offered_lease env mac ip name,
    rw (held, brief, reserve_offer) (rw held refl),
    find-insert_self ip _ s.leases,
    inl (ground (arith, brief), refl),
  )
]

-- An offer does not look into the lease table for the address that the client asks for: an address
-- other than 0 of the range, which is not withheld, that another client holds is offered when the
-- probe is silent. Where the holder's lease ends within the hold of the offer, the table then has
-- the new client's lease of the address, and otherwise still the holder's.
pub offer_of_leased :
    (fuel : ℕ) (env : Env) (s : Server) (m : Packet) (ip : ℕ) (name : List ℕ) (l : Lease)
    → ip ≢ 0
    → is_ip_in_range s ip ≡ true
    → address_declined env requested s ip ≡ false
    → probe_ip env requested ip ≡ none
    → find ip s.leases ≡ some l
    → l.mac ≢ m.chaddr
    → (t : Server) × (l' : Lease) × (send_dhcp_offer fuel env s m ip name
        ≡ some (t, lease_reply t offer offer_event m ip))
      × (find ip t.leases ≡ some l')
      × Reserved env m.chaddr l l'
unfolding send_dhcp_offer offer_address
offer_of_leased fuel env s m ip name l nz range fresh silent held other =
    let asked = offered_as_asked env s m.chaddr ip nz range fresh silent in
    let nonzero : (ip == 0) ≡ false = ground arith in
    let (t, l', kept, entry, whose) = reserve_offer-Reserved env s m.chaddr ip name l held in
    (t, l', rw (asked, nonzero, kept) refl, entry, whose)
