-- ===== src/Dhcp/Server/Refusals.antt =====
-- Whom the server ignores, and what a refused address has for a consequence.
use dhcpserver.Base.{
  ℕ, ◌-◌, ◌^◌, ◌≤◌, ◌<◌, ◌≡◌, refl, ◌∙◌, ap, ◌⊎◌, inl, inr, true, false, ◌&&◌, ◌||◌, List, none,
  some, ◌==◌, arith, Bool-cases, Option-cases, length, bytes_eq,
}
use dhcpserver.Dhcp.Declined
use dhcpserver.Dhcp.Declined.Holding
use dhcpserver.Dhcp.Declined.Holding.{is_declined-add}
use dhcpserver.Dhcp.AllowedList.{
  AllowedList, AllowedComputer, max_entries, rebuild, contains, any_static, is_client_allowed,
}
use dhcpserver.Dhcp.AllowedList.Contents.{lists}
use dhcpserver.Dhcp.AllowedList.Rebuilt.{contains-rebuild, available-rebuild}
use dhcpserver.Dhcp.Leases.{find}
use dhcpserver.Dhcp.Server.{
  Server, Env, Site, request, decline, scanned, time_ms, address_declined,
  is_static_binding_for_mac,
}
use dhcpserver.Dhcp.Server.Packet.{Packet, Options, load_packet}
use dhcpserver.Dhcp.Server.Select.{passed_over}
use dhcpserver.Dhcp.Server.Handler.{
  ignored, assign_ip, is_valid_request, is_granted, handle_request, send_dhcp_nak, drop_own_lease,
  handle_decline, handle_dhcp_message,
}
use dhcpserver.Dhcp.Server.Requests.{handle_cases}

stranger_refused :
    (s : Server) (mac : List ℕ) (l : AllowedList) (list : List AllowedComputer)
    → s.allow_only ≡ true
    → s.allowed_list ≡ (rebuild l list).0
    → l.available ≡ true
    → length list ≤ max_entries
    → lists list mac ≡ false
    → any_static s.allowed_static_refs mac ≡ false
    → is_client_allowed mac s.allow_only s.allowed_list s.allowed_static_refs ≡ false
unfolding is_client_allowed
stranger_refused s mac l list only built ready size unlisted unbound =
    let absent : contains s.allowed_list mac ≡ false =
      ap (λ a. contains a mac) built ∙ (contains-rebuild l list mac ready size).0 ∙ unlisted in
    let usable : s.allowed_list.available ≡ true =
      ap (λ (a : AllowedList). a.available) built ∙ available-rebuild l list ∙ ready in
    ground arith

-- With "only allowed computers" on and the table built from a list of at most max_entries entries,
-- a client that no enabled entry of the list names and that has no enabled static binding gets no
-- answer, and its packet changes nothing.
pub handle_dhcp_message-stranger :
    (fuel : ℕ) (env : Env) (s : Server) (buf : ℕ → ℕ) (len : ℕ) (l : AllowedList)
    (list : List AllowedComputer)
    → s.allow_only ≡ true
    → s.allowed_list ≡ (rebuild l list).0
    → l.available ≡ true
    → length list ≤ max_entries
    → lists list (load_packet buf).chaddr ≡ false
    → any_static s.allowed_static_refs (load_packet buf).chaddr ≡ false
    → handle_dhcp_message fuel env s buf len ≡ some (ignored s)
handle_dhcp_message-stranger fuel env s buf len l list only built ready size unlisted unbound =
    handle_cases (λ r. r ≡ some (ignored s)) fuel env s buf len refl
      (λ allowed. cc (
        allowed,
        stranger_refused s (load_packet buf).chaddr l list only built ready size unlisted unbound,
      ))

-- The clock reads, at a place of a later environment, a time within the hold that a refusal starts.
abbrev pub WithinHold : Env → Env → Site → Type 0
WithinHold env env' site =
    (time_ms env decline ≤ time_ms env' site)
    × (time_ms env' site - time_ms env decline < Declined.decline_hold_ms)
    × (time_ms env' site < 2 ^ 64)

declined-handle_decline :
    (env : Env) (s : Server) (m : Packet) (o : Options)
    → (handle_decline env s m o).0.declined
      ≡ (Declined.add s.declined o.requested_ip (time_ms env decline)).0
unfolding handle_decline drop_own_lease
declined-handle_decline env s m o = elim (Option-cases (find o.requested_ip s.leases)) [
  | inl e ↦ rw (e, drop_own_lease) refl
  | inr (l, e) ↦ elim (Bool-cases (bytes_eq l.mac m.chaddr)) [
    | inl b ↦ rw (e, b, drop_own_lease) refl
    | inr b ↦ rw (e, b, drop_own_lease) refl
  ]
]

held_after_decline :
    (env env' : Env) (site : Site) (s t : Server) (m : Packet) (o : Options)
    → Holding.IsValid s.declined
    → t.declined ≡ (handle_decline env s m o).0.declined
    → WithinHold env env' site
    → address_declined env' site t o.requested_ip ≡ true
unfolding address_declined
held_after_decline env env' site s t m o v kept w =
    ap (λ d. Declined.is_declined d o.requested_ip (time_ms env' site))
      (kept ∙ declined-handle_decline env s m o)
    ∙ is_declined-add s.declined o.requested_ip (time_ms env decline) (time_ms env' site) v w.0 w.2
    ∙ ground arith

not_granted :
    (env : Env) (s : Server) (mac : List ℕ) (ip : ℕ)
    → find ip s.leases ≡ none
    → is_static_binding_for_mac s mac ip ≡ false
    → address_declined env request s ip ≡ true
    → is_granted env s mac ip ≡ false
unfolding is_granted
not_granted env s mac ip f u d = ground arith

refused_request :
    (env : Env) (s : Server) (m : Packet) (o : Options) (name : List ℕ)
    → (o.server_id ≡ 0) ⊎ (o.server_id ≡ s.server_ip)
    → is_granted env s m.chaddr (assign_ip m o) ≡ false
    → handle_request env s m o name ≡ (s, send_dhcp_nak s m)
unfolding handle_request
refused_request env s m o name ours g =
    let addressed : (o.server_id == 0 || o.server_id == s.server_ip) ≡ true = ground arith in
    let refusal : (is_valid_request s m.chaddr (assign_ip m o)
          && is_granted env s m.chaddr (assign_ip m o))
        ≡ false =
      ground arith in
    rw (addressed, refusal) refl

-- A refused address is withheld. Take a server `t` whose hold-down table is still the one that a
-- DECLINE left, and a clock within the hold that the DECLINE started. While the lease table of `t`
-- has no lease of the address, a REQUEST for it that names no other server and comes from a client
-- to which the address is not bound changes nothing and is answered by a NAK, and the selection
-- passes the address over. Nothing is said of the time after a further refusal, which may overwrite
-- the entry, nor of an address that is leased.
pub declined_is_withheld :
    (env env' : Env) (s t : Server) (m m' : Packet) (o o' : Options) (name : List ℕ)
    → Holding.IsValid s.declined
    → t.declined ≡ (handle_decline env s m o).0.declined
    → find o.requested_ip t.leases ≡ none
    → assign_ip m' o' ≡ o.requested_ip
    → (o'.server_id ≡ 0) ⊎ (o'.server_id ≡ t.server_ip)
    → is_static_binding_for_mac t m'.chaddr o.requested_ip ≡ false
    → WithinHold env env' request
    → WithinHold env env' (scanned o.requested_ip)
    → (handle_request env' t m' o' name ≡ (t, send_dhcp_nak t m'))
      × (passed_over env' t o.requested_ip ≡ true)
unfolding passed_over
declined_is_withheld env env' s t m m' o o' name v kept free asked ours unbound asks scans =
    let held = held_after_decline env env' request s t m o v kept asks in
    let held' = held_after_decline env env' (scanned o.requested_ip) s t m o v kept scans in
    (
      refused_request env' t m' o' name ours (
          ap (is_granted env' t m'.chaddr) asked
          ∙ not_granted env' t m'.chaddr o.requested_ip free unbound held),
      ground arith,
    )
