-- ===== src/Dhcp/Examples/Packets.antt =====
-- Packets through the whole handler.
use dhcpserver.Base.{
  ℕ, ◌-◌, ◌≡◌, refl, ◌≢◌, inl, true, false, List, [], ◌∷◌, Option, none, some, ltb, arith, length,
  bytes_eq, ntohl, if◌then◌else◌, word_bytes, ◌++◌, get_or,
}
use dhcpserver.Dhcp.Server.Filter.{AllPass, handle_dhcp_message-AllPass}
use dhcpserver.Dhcp.Server.Reads.{Agree, buffer_bytes, handle_dhcp_message-within}
use dhcpserver.Dhcp.Declined
use dhcpserver.Dhcp.Declined.Holding.{init-IsValid}
use dhcpserver.Dhcp.Mac.{format_mac, parse_mac}
use dhcpserver.Dhcp.AllowedList
use dhcpserver.Dhcp.AllowedList.{is_client_allowed, rebuild}
use dhcpserver.Dhcp.AllowedList.Contents.{lists}
use dhcpserver.Dhcp.Leases.{Lease, find, insert, erase, remove_expired}
use dhcpserver.Dhcp.Leases.Laws.{IsTable}
use dhcpserver.Dhcp.Server.{
  Server, is_ip_in_range, is_static_binding_for_mac, bound_to, first_binding, general_dns,
  resolve_dns_server, resolve_router, address_declined, can_add_lease_entry, add_lease_entry,
  probe_ip, purge, time_sec, requested,
}
use dhcpserver.Dhcp.Server.Packet.{
  Packet, Options, load_packet, load_bytes, parse_options, scan_options, take_option,
}
use dhcpserver.Dhcp.Server.Handler.{
  Action, Handled, datagram, nothing, client_name, handle_dhcp_message, dispatch, send_dhcp_offer,
  lease_reply, lease_options, send_dhcp_ack, send_dhcp_nak, handle_request, is_valid_request,
  is_granted, handle_decline, drop_own_lease, server_round, ignored, offer, offer_event,
}
use dhcpserver.Dhcp.Server.Invariant
use dhcpserver.Dhcp.Server.Invariant.{Reach, here, next, Reach-IsValid}
use dhcpserver.Dhcp.Server.Acks.{AcksGrounded, handle_dhcp_message-AcksGrounded}
use dhcpserver.Dhcp.Server.Isolation.{Survives, handle_dhcp_message-Survives}
use dhcpserver.Dhcp.Server.Replies.{FitsOnce, handle_dhcp_message-Fits}
use dhcpserver.Dhcp.Server.Refusals.{handle_dhcp_message-stranger, declined_is_withheld}
use dhcpserver.Dhcp.Server.Unchecked.{Reserved, release_by_another, offer_of_leased}
use dhcpserver.Dhcp.Server.Range.{host}
use dhcpserver.Dhcp.Examples.{lan, alice, bob, bobs, serving, office, quiet}

-- The header of a packet from a client, in the buffer, and options behind it.
packet_at : List ℕ → ℕ → List ℕ → ℕ → ℕ
packet_at mac ciaddr options i =
    if ltb i 12
    then 0
    else if ltb i 16
    then get_or (word_bytes ciaddr) (i - 12) 0
    else if ltb i 28
    then 0
    else if ltb i 34
    then get_or mac (i - 28) 0
    else if ltb i 236
    then 0
    else get_or (99 ∷ 130 ∷ 83 ∷ 99 ∷ options) (i - 236) 0

-- Alice asks for .100; asks for Bob's .101; Bob releases and Alice declines.
request_100 : ℕ → ℕ
request_100 = packet_at alice 0 (53 ∷ 1 ∷ 3 ∷ 50 ∷ 4 ∷ (word_bytes (host lan 100) ++ (255 ∷ [])))

request_101 : ℕ → ℕ
request_101 = packet_at alice 0 (53 ∷ 1 ∷ 3 ∷ 50 ∷ 4 ∷ (word_bytes (host lan 101) ++ (255 ∷ [])))

abbrev result : Option Handled → Handled
result none = ignored office
result (some h) = h

-- All that the handling of a packet runs.
machinery : ℕ
unfolding packet_at request_100 request_101 handle_dhcp_message load_packet load_bytes parse_options
    scan_options take_option ntohl is_client_allowed dispatch handle_request is_valid_request
    is_granted is_ip_in_range is_static_binding_for_mac bound_to find insert erase remove_expired
    address_declined Declined.init Declined.is_declined Declined.held_in probe_ip
    can_add_lease_entry add_lease_entry send_dhcp_ack send_dhcp_nak lease_reply lease_options
    resolve_router resolve_dns_server first_binding general_dns bytes_eq
machinery = 0

request_100_runs :
    handle_dhcp_message 300 quiet office request_100 300
    ≡ some (result (handle_dhcp_message 300 quiet office request_100 300))
unfolding machinery
request_100_runs = refl

request_100_acked :
    length (result (handle_dhcp_message 300 quiet office request_100 300)).actions ≡ 2
unfolding machinery
request_100_acked = refl

office-IsTable : IsTable office.leases
office-IsTable = (refl, tt)

office-IsValid : Invariant.IsValid office
office-IsValid = record { table = office-IsTable; bounded = omega arith; declined = init-IsValid }

-- Two rounds: a timeout, then Alice's request.
idle_round : server_round 300 quiet office nothing ≡ some (ignored office)
unfolding server_round remove_expired
idle_round = refl

request_round :
    server_round 300 quiet office (datagram request_100 300)
    ≡ some (result (handle_dhcp_message 300 quiet office request_100 300))
unfolding server_round machinery
request_round = refl

Reach-IsValid_example :
    Invariant.IsValid (result (handle_dhcp_message 300 quiet office request_100 300)).server
Reach-IsValid_example = Reach-IsValid office-IsValid (
    next 300 quiet (datagram request_100 300) _
      (next 300 quiet nothing (ignored office) here idle_round) request_round)

handle_dhcp_message-AcksGrounded_example :
    let h = result (handle_dhcp_message 300 quiet office request_100 300) in
    AcksGrounded quiet office
      (load_packet request_100)
      (client_name request_100 300)
      h.server
      h.actions
handle_dhcp_message-AcksGrounded_example =
    handle_dhcp_message-AcksGrounded 300 quiet office request_100 300 _ request_100_runs

handle_dhcp_message-Fits_example :
    FitsOnce
      (load_packet request_100)
      (parse_options request_100)
      (result (handle_dhcp_message 300 quiet office request_100 300)).actions
handle_dhcp_message-Fits_example =
    handle_dhcp_message-Fits 300 quiet office request_100 300 _ request_100_runs

bob_held : find (host lan 101) office.leases ≡ some (bobs 5000)
unfolding find
bob_held = refl

bob_other : (bobs 5000).mac ≢ (load_packet request_101).chaddr
unfolding machinery
bob_other e = cc e

request_101_facts :
    (is_static_binding_for_mac office (load_packet request_101).chaddr (host lan 101) ≡ false)
    × ((parse_options request_101).msg_type ≡ 3)
    × (handle_dhcp_message 300 quiet office request_101 300
        ≡ some (result (handle_dhcp_message 300 quiet office request_101 300)))
unfolding machinery
request_101_facts = (refl, refl, refl)

handle_dhcp_message-Survives_example :
    Survives
      (time_sec quiet purge)
      (host lan 101)
      (bobs 5000)
      (result (handle_dhcp_message 300 quiet office request_101 300)).server.leases
handle_dhcp_message-Survives_example =
    handle_dhcp_message-Survives 300 quiet office request_101 300 _ (host lan 101) (bobs 5000)
      office-IsTable bob_held bob_other request_101_facts.0 (omega (arith, request_101_facts.1))
      (omega (arith, request_101_facts.1)) request_101_facts.2

-- The office with only Bob's computer allowed.
abbrev guarded : Server
guarded = record office {
  allow_only = true;
  allowed_list =
      (rebuild AllowedList.init
        (record { mac = format_mac bob; name = []; enabled = true } ∷ [])).0;
}

guarded_facts :
    (AllowedList.init.available ≡ true)
    × (lists
          (record { mac = format_mac bob; name = []; enabled = true } ∷ [])
          (load_packet request_100).chaddr
        ≡ false)
unfolding AllowedList.init lists format_mac parse_mac machinery
guarded_facts = (refl, refl)

handle_dhcp_message-stranger_example :
    handle_dhcp_message 300 quiet guarded request_100 300 ≡ some (ignored guarded)
unfolding AllowedList.any_static
handle_dhcp_message-stranger_example =
    handle_dhcp_message-stranger 300 quiet guarded request_100 300 AllowedList.init
      (record { mac = format_mac bob; name = []; enabled = true } ∷ []) refl refl guarded_facts.0
      (omega arith) guarded_facts.1 refl

abbrev alices : Packet
alices = record { xid = 9; ciaddr = 0; giaddr = 0; chaddr = alice; cookie = 0 }

abbrev asks_100 : ℕ → Options
asks_100 type = record { msg_type = type; requested_ip = host lan 100; server_id = 0 }

declined_facts :
    (find (host lan 100) (handle_decline quiet office alices (asks_100 4)).0.leases ≡ none)
    × (is_static_binding_for_mac
          (handle_decline quiet office alices (asks_100 4)).0
          alice
          (host lan 100)
        ≡ false)
unfolding handle_decline drop_own_lease machinery
declined_facts = (refl, refl)

declined_is_withheld_example :
    handle_request quiet (handle_decline quiet office alices (asks_100 4)).0 alices (asks_100 3) []
    ≡ (
      (handle_decline quiet office alices (asks_100 4)).0,
      send_dhcp_nak (handle_decline quiet office alices (asks_100 4)).0 alices,
    )
declined_is_withheld_example =
    (declined_is_withheld quiet quiet office (handle_decline quiet office alices (asks_100 4)).0
      alices alices (asks_100 4) (asks_100 3) [] init-IsValid refl declined_facts.0 refl (inl refl)
      declined_facts.1 (omega arith) (omega arith)).0

-- Alice releases Bob's address.
abbrev release_101 : Packet
release_101 = record alices { ciaddr = host lan 101 }

alice_is_not_bob : (bobs 5000).mac ≢ alice
alice_is_not_bob e = cc e

release_by_another_example :
    (r : Server × List Action) × (dispatch 300 quiet office release_101 (asks_100 7) [] ≡ some r)
    × (find (host lan 101) r.0.leases ≡ none)
release_by_another_example =
    release_by_another 300 quiet office release_101 (asks_100 7) [] (bobs 5000) office-IsTable refl
      bob_held alice_is_not_bob

-- Bob's lease has half a minute left, and Alice asks for its address.
abbrev ending : Server
ending = serving (host lan 100) (host lan 102) 1030

ending_facts :
    (is_ip_in_range ending (host lan 101) ≡ true)
    × (address_declined quiet requested ending (host lan 101) ≡ false)
    × (probe_ip quiet requested (host lan 101) ≡ none)
    × (find (host lan 101) ending.leases ≡ some (bobs 1030))
unfolding machinery
ending_facts = (refl, refl, refl, refl)

offer_of_leased_example :
    (t : Server) × (l' : Lease) × (send_dhcp_offer 300 quiet ending alices (host lan 101) []
      ≡ some (t, lease_reply t offer offer_event alices (host lan 101)))
    × (find (host lan 101) t.leases ≡ some l')
    × Reserved quiet alice (bobs 1030) l'
offer_of_leased_example =
    offer_of_leased 300 quiet ending alices (host lan 101) [] (bobs 1030) (omega arith)
      ending_facts.0 ending_facts.1 ending_facts.2 ending_facts.3 alice_is_not_bob

-- The same datagram in a memory that differs behind the receive buffer.
elsewhere : ℕ → ℕ
elsewhere i = if ltb i buffer_bytes then request_100 i else 77

elsewhere-Agree : Agree request_100 elsewhere
unfolding elsewhere
elsewhere-Agree i h = ground arith

handle_dhcp_message-within_example :
    handle_dhcp_message 300 quiet office request_100 300
    ≡ handle_dhcp_message 300 quiet office elsewhere 300
handle_dhcp_message-within_example =
    handle_dhcp_message-within 300 quiet office request_100 elsewhere 300 elsewhere-Agree
      (omega arith)

handle_dhcp_message-AllPass_example :
    let h = result (handle_dhcp_message 300 quiet office request_100 300) in
    AllPass (λ ip. none) office.allow_only h.server h.actions
handle_dhcp_message-AllPass_example =
    handle_dhcp_message-AllPass (λ ip. none) 300 quiet office request_100 300 _ request_100_runs
