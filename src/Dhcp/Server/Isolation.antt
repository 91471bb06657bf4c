-- ===== src/Dhcp/Server/Isolation.antt =====
-- What one client's packets can do to the lease of another.
use dhcpserver.Base.{
  ℕ, ◌+◌, ◌%◌, ◌≤◌, ◌<◌, ◌≡◌, refl, sym, subst, ◌≢◌, ◌⊎◌, inl, inr, true, false, List, [], ◌∷◌,
  Option, none, some, ltb, leb, ◌==◌, ==_iff, arith, Bool-cases, Option-cases, bytes_eq,
  bytes_eq_iff, u32_mod, &&-true,
}
use dhcpserver.Dhcp.Leases.{Leases, Lease, find, insert, erase, remove_expired}
use dhcpserver.Dhcp.Leases.Laws.{
  IsTable, find-insert, find-insert_self, find-erase, find-remove_expired,
}
use dhcpserver.Dhcp.Server.{
  Server, Env, purge, existing, time_sec, can_add_lease_entry, add_lease_entry, named,
  reserve_entry, reserve_offer, offer_hold_sec, is_static_binding_for_mac,
}
use dhcpserver.Dhcp.Server.Packet.{Packet, Options, load_packet, parse_options}
use dhcpserver.Dhcp.Server.Handler.{
  Action, Handled, assign_ip, is_granted, offer_address, drop_own_lease, handle_decline, dispatch,
  answered, client_name, handle_dhcp_message,
}
use dhcpserver.Dhcp.Server.Requests.{
  Requested, other_server, refused, no_room, granted, Requested-handle_request, dispatch_cases,
  handle_cases,
}

-- The lease stays, its host name aside, or it had run out and is gone.
abbrev pub Survives : ℕ → ℕ → Lease → Leases → Type 0
Survives now ip l m =
    ((l' : Lease) × (find ip m ≡ some l') × (l'.mac ≡ l.mac) × (l'.expiry ≡ l.expiry))
    ⊎ ((find ip m ≡ none) × (l.expiry ≤ now))

unchanged : (now ip : ℕ) (l : Lease) (m : Leases) → find ip m ≡ some l → Survives now ip l m
unchanged now ip l m f = inl (l, f, refl, refl)

Survives-insert :
    (now ip j : ℕ) (l new : Lease) (m : Leases)
    → ip ≢ j
    → Survives now j l m
    → Survives now j l (insert ip new m)
Survives-insert now ip j l new m n (inl (l', f, a, b)) =
    inl (l', ground (arith, find-insert ip j new m), a, b)
Survives-insert now ip j l new m n (inr (f, e)) = inr (ground (arith, find-insert ip j new m), e)

Survives-erase :
    (now ip j : ℕ) (l : Lease) (m : Leases)
    → IsTable m
    → ip ≢ j
    → find j m ≡ some l
    → Survives now j l (erase ip m)
Survives-erase now ip j l m t n f =
    unchanged now j l (erase ip m) (ground (arith, find-erase ip j m t))

kept_or_purged :
    (env : Env) (s : Server) (ip : ℕ)
    → ((can_add_lease_entry env s ip).0.leases ≡ s.leases)
      ⊎ ((can_add_lease_entry env s ip).0.leases ≡ remove_expired (time_sec env purge) s.leases)
unfolding can_add_lease_entry
kept_or_purged env s ip = ground arith

can_add_lease_entry-Survives :
    (env : Env) (s : Server) (ip j : ℕ) (l : Lease)
    → IsTable s.leases
    → find j s.leases ≡ some l
    → Survives (time_sec env purge) j l (can_add_lease_entry env s ip).0.leases
can_add_lease_entry-Survives env s ip j l t f = elim (kept_or_purged env s ip) [
  | inl e ↦ unchanged _ j l _ (rw e f)
  | inr e ↦ elim (Bool-cases (leb l.expiry (time_sec env purge))) [
    | inl x ↦
        inr (
          rw e (ground (arith, find-remove_expired (time_sec env purge) j s.leases t)),
          ground arith,
        )
    | inr x ↦
        unchanged _ j l _
          (rw e (ground (arith, find-remove_expired (time_sec env purge) j s.leases t)))
  ]
]

granted_owner :
    (env : Env) (s : Server) (mac : List ℕ) (ip : ℕ) (l : Lease)
    → is_granted env s mac ip ≡ true
    → find ip s.leases ≡ some l
    → is_static_binding_for_mac s mac ip ≡ false
    → l.mac ≡ mac
unfolding is_granted
granted_owner env s mac ip l g f u = (bytes_eq_iff l.mac mac).0 (ground arith)

pub named-mac : (l : Lease) (name : List ℕ) → (named l name).mac ≡ l.mac
named-mac l [] = refl
named-mac l (c ∷ cs) = refl

pub named-expiry : (l : Lease) (name : List ℕ) → (named l name).expiry ≡ l.expiry
named-expiry l [] = refl
named-expiry l (c ∷ cs) = refl

abbrev SurvivesIn : Env → ℕ → Lease → Option (Server × List Action) → Type 0
SurvivesIn env ip l none = Unit {0}
SurvivesIn env ip l (some r) = Survives (time_sec env purge) ip l r.0.leases

module _ (env : Env) (s : Server) (m : Packet) (ip : ℕ) (l : Lease) (table : IsTable s.leases)
    (held : find ip s.leases ≡ some l) (other : l.mac ≢ m.chaddr)
    (unbound : is_static_binding_for_mac s m.chaddr ip ≡ false) where
  Requested-Survives :
      {o : Options} {name : List ℕ} {r : Server × List Action}
      → Requested env s m o name r
      → Survives (time_sec env purge) ip l r.0.leases
  unfolding add_lease_entry
  Requested-Survives (other_server a) = unchanged _ ip l _ held
  Requested-Survives (refused a g) = unchanged _ ip l _ held
  Requested-Survives {o} (no_room a g r) =
      can_add_lease_entry-Survives env s (assign_ip m o) ip l table held
  Requested-Survives {o} (granted a g r) =
      let apart : assign_ip m o ≢ ip = (λ e. other (
        granted_owner env s m.chaddr ip l
          (subst (λ j. is_granted env s m.chaddr j ≡ true) e (&&-true _ _ g).1) held unbound)) in
      Survives-insert _ (assign_ip m o) ip l _ _ apart
        (can_add_lease_entry-Survives env s (assign_ip m o) ip l table held)

  handle_decline-Survives :
      (o : Options) → Survives (time_sec env purge) ip l (handle_decline env s m o).0.leases
  unfolding handle_decline drop_own_lease
  handle_decline-Survives o = elim (Option-cases (find o.requested_ip s.leases)) [
    | inl e ↦ rw (e, drop_own_lease) (unchanged _ ip l _ held)
    | inr (k, e) ↦ elim (Bool-cases (bytes_eq k.mac m.chaddr)) [
      | inr b ↦ rw (e, b, drop_own_lease) (unchanged _ ip l _ held)
      | inl b ↦
          let apart : o.requested_ip ≢ ip =
            (λ q. other (ground (arith, q, (bytes_eq_iff k.mac m.chaddr).0 b))) in
          rw (e, b, drop_own_lease) (Survives-erase _ o.requested_ip ip l s.leases table apart held)
    ]
  ]

  reserve_entry-Survives :
      (new : ℕ) (name : List ℕ)
      → new ≢ ip
      → Survives (time_sec env purge) ip l (reserve_entry env s m.chaddr new name).0.leases
  unfolding reserve_entry
  reserve_entry-Survives new name apart =
      let kept = can_add_lease_entry-Survives env s new ip l table held in
      elim (Bool-cases (can_add_lease_entry env s new).1) [
        | inl r ↦ rw r (Survives-insert _ new ip l _ _ apart kept)
        | inr r ↦ rw r kept
      ]

  other_offer-Survives :
      (new : ℕ) (name : List ℕ)
      → new ≢ ip
      → Survives (time_sec env purge) ip l (reserve_offer env s m.chaddr new name).0.leases
  unfolding reserve_offer
  other_offer-Survives new name apart = elim (Option-cases (find new s.leases)) [
    | inl e ↦ rw (e, reserve_offer) (reserve_entry-Survives new name apart)
    | inr (k, e) ↦
        elim (Bool-cases (ltb ((time_sec env existing + offer_hold_sec) % u32_mod) k.expiry)) [
          | inr b ↦ rw (e, b, reserve_offer) (reserve_entry-Survives new name apart)
          | inl b ↦
              rw (e, b, reserve_offer)
                (Survives-insert _ new ip l _ s.leases apart (unchanged _ ip l s.leases held))
        ]
  ]

  same_offer-Survives :
      (name : List ℕ)
      → (time_sec env existing + offer_hold_sec) % u32_mod < l.expiry
      → Survives (time_sec env purge) ip l (reserve_offer env s m.chaddr ip name).0.leases
  unfolding reserve_offer
  same_offer-Survives name long =
      let long' : ltb ((time_sec env existing + offer_hold_sec) % u32_mod) l.expiry ≡ true =
        ground arith in
      rw (held, long', reserve_offer)
        (inl (
          named l name,
          find-insert_self ip (named l name) s.leases,
          named-mac l name,
          named-expiry l name,
        ))

  offer_address-Survives :
      (name : List ℕ) (new : ℕ)
      → (time_sec env existing + offer_hold_sec) % u32_mod < l.expiry
      → Survives (time_sec env purge) ip l (offer_address env s m name new).0.leases
  unfolding offer_address
  offer_address-Survives name new long = elim (Bool-cases (new == 0)) [
    | inl z ↦ rw z (unchanged _ ip l _ held)
    | inr z ↦
        let kept : Survives (time_sec env purge) ip l
            (reserve_offer env s m.chaddr new name).0.leases =
          (elim (Bool-cases (new == ip)) [
            | inl q ↦
                subst
                  (λ j.
                    Survives (time_sec env purge) ip l
                      (reserve_offer env s m.chaddr j name).0.leases)
                  (sym ((==_iff new ip).0 q)) (same_offer-Survives name long)
            | inr q ↦ other_offer-Survives new name (ground arith)
          ]) in
        elim (Bool-cases (reserve_offer env s m.chaddr new name).1) [
          | inl r ↦ rw (z, r) kept
          | inr r ↦ rw (z, r) kept
        ]
  ]

  dispatch-Survives :
      (fuel : ℕ) (o : Options) (name : List ℕ)
      → o.msg_type ≢ 7
      → (o.msg_type ≡ 1 → (time_sec env existing + offer_hold_sec) % u32_mod < l.expiry)
      → SurvivesIn env ip l (dispatch fuel env s m o name)
  dispatch-Survives fuel o name not_release long =
      dispatch_cases (SurvivesIn env ip l) fuel env s m o name tt
        (λ q new. offer_address-Survives name new (long q))
        (λ _. Requested-Survives (Requested-handle_request env s m o name))
        (λ q. absurd (not_release q)) (λ _. handle_decline-Survives o) (unchanged _ ip l _ held)

abbrev HandledSurvives : ℕ → ℕ → Lease → Option Handled → Type 0
HandledSurvives now ip l none = Unit {0}
HandledSurvives now ip l (some h) = Survives now ip l h.server.leases

answered-Survives :
    (env : Env) (ip : ℕ) (l : Lease) (r : Option (Server × List Action))
    → SurvivesIn env ip l r
    → HandledSurvives (time_sec env purge) ip l (answered r)
answered-Survives env ip l none a = tt
answered-Survives env ip l (some (t, actions)) a = a

-- A packet of a client that does not hold a lease and to which its address is not bound leaves the
-- lease its holder and its expiry, or the lease had run out, when the packet is no RELEASE and, for
-- a DISCOVER, the lease ends after the hold of an offer that is made now.
pub handle_dhcp_message-Survives :
    (fuel : ℕ) (env : Env) (s : Server) (buf : ℕ → ℕ) (len : ℕ) (h : Handled) (ip : ℕ) (l : Lease)
    → IsTable s.leases
    → find ip s.leases ≡ some l
    → l.mac ≢ (load_packet buf).chaddr
    → is_static_binding_for_mac s (load_packet buf).chaddr ip ≡ false
    → (parse_options buf).msg_type ≢ 7
    → ((parse_options buf).msg_type ≡ 1
        → (time_sec env existing + offer_hold_sec) % u32_mod < l.expiry)
    → handle_dhcp_message fuel env s buf len ≡ some h
    → Survives (time_sec env purge) ip l h.server.leases
handle_dhcp_message-Survives fuel env s buf len h ip l table held other unbound no_release long e =
    subst (HandledSurvives (time_sec env purge) ip l) e (
      handle_cases (HandledSurvives (time_sec env purge) ip l) fuel env s buf len
        (unchanged _ ip l _ held)
        (λ _.
          answered-Survives env ip l
            (dispatch fuel env s (load_packet buf) (parse_options buf) (client_name buf len))
            (dispatch-Survives env s (load_packet buf) ip l table held other unbound fuel
              (parse_options buf) (client_name buf len) no_release long)))
