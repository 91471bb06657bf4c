-- ===== src/Dhcp/Server/Handler.antt =====
-- handleDhcpMessage, sendDhcpOffer, sendDhcpAck and sendDhcpNak of src/dhcp/DhcpServer.cpp. What is
-- sent, and what the REST logger is told, is the list of actions of the handler, in order. The
-- lines for the terminal and the log file are left out.
use dhcpserver.Base.{
  ℕ, ◌-◌, Bool, true, false, not, ◌&&◌, ◌||◌, List, [], ◌∷◌, ◌++◌, Option, none, some, ltb, ◌==◌,
  if◌then◌else◌, bytes_eq, ntohl, is_some, word_bytes,
}
use dhcpserver.Dhcp.Declined
use dhcpserver.Dhcp.AllowedList.{is_client_allowed}
use dhcpserver.Dhcp.ClientName.{from_options}
use dhcpserver.Dhcp.Leases.{find, erase, remove_expired}
use dhcpserver.Dhcp.Server.{
  Server, Env, requested, request, decline, loop, probe_ip, time_sec, time_ms, is_ip_in_range,
  is_static_binding_for_mac, resolve_dns_server, resolve_router, address_declined,
  can_add_lease_entry, add_lease_entry, reserve_offer,
}
use dhcpserver.Dhcp.Server.Packet.{
  Packet, Options, load_packet, load_bytes, parse_options, options_offset,
}
use dhcpserver.Dhcp.Server.Select.{select_ip}

pub data MessageType : Type 0 where
  offer ack nak : MessageType

-- DHCP_OFFER, DHCP_ACK and DHCP_NAK.
abbrev pub type_code : MessageType → ℕ
type_code offer = 2
type_code ack = 5
type_code nak = 6

-- The fields of a reply; those that every reply sets alike (op, htype, hlen, hops, secs, ciaddr,
-- the broadcast flag and the cookie) are left out. `dest` is the destination of the datagram.
pub record Reply : Type 0 where
  pub kind : MessageType
  pub xid : ℕ
  pub yiaddr : ℕ
  pub siaddr : ℕ
  pub giaddr : ℕ
  pub chaddr : List ℕ
  pub options : List ℕ
  pub dest : ℕ

-- The arguments of logDhcpRest.
pub data EventKind : Type 0 where
  offer_event ack_event nak_event release_event decline_event : EventKind

pub record Event : Type 0 where
  pub kind : EventKind
  pub mac : List ℕ
  pub ip : ℕ
  pub mask : ℕ
  pub gateway : ℕ
  pub gateway_sent : Bool
  pub dns : ℕ
  -- The 32 bits of an int32_t, into which the source casts leaseTimeSec_: from 2 ^ 31 on the source
  -- reports a negative number.
  pub lease_time : ℕ

pub data Action : Type 0 where
  send : Reply → Action
  log_rest : Event → Action

-- An option of four bytes.
abbrev pub option4 : ℕ → ℕ → List ℕ → List ℕ
option4 code value rest = code ∷ 4 ∷ (word_bytes value ++ rest)

abbrev pub type_option : MessageType → List ℕ → List ℕ
type_option kind rest = 53 ∷ 1 ∷ type_code kind ∷ rest

-- The options of an OFFER or an ACK.
unfoldable pub lease_options : Server → MessageType → List ℕ → List ℕ
lease_options s kind mac =
    let (router, sent) = resolve_router s mac in
    let tail =
      option4 6 (resolve_dns_server s mac) (option4 51 (ntohl s.lease_time_sec) (255 ∷ [])) in
    type_option kind (
      option4 54 s.server_ip
        (option4 1 s.server_netmask (if sent then option4 3 router tail else tail)))

unfoldable pub nak_options : Server → List ℕ
nak_options s = type_option nak (option4 54 s.server_ip (255 ∷ []))

-- relayIp, or the limited broadcast address.
abbrev pub destination : ℕ → ℕ
destination relay = if relay == 0 then 4294967295 else relay

abbrev pub bare_event : EventKind → List ℕ → ℕ → Event
bare_event kind mac ip = record {
  kind = kind;
  mac = mac;
  ip = ip;
  mask = 0;
  gateway = 0;
  gateway_sent = false;
  dns = 0;
  lease_time = 0;
}

-- What sendDhcpOffer and sendDhcpAck send and report for an address.
unfoldable pub lease_reply : Server → MessageType → EventKind → Packet → ℕ → List Action
lease_reply s kind event m ip =
    let (router, sent) = resolve_router s m.chaddr in
    send (record {
      kind = kind;
      xid = m.xid;
      yiaddr = ip;
      siaddr = s.server_ip;
      giaddr = m.giaddr;
      chaddr = m.chaddr;
      options = lease_options s kind m.chaddr;
      dest = destination m.giaddr;
    })
    ∷ log_rest (record {
      kind = event;
      mac = m.chaddr;
      ip = ip;
      mask = s.server_netmask;
      gateway = router;
      gateway_sent = sent;
      dns = resolve_dns_server s m.chaddr;
      lease_time = s.lease_time_sec;
    })
    ∷ []

-- sendDhcpAck
unfoldable pub send_dhcp_ack : Server → Packet → ℕ → List Action
send_dhcp_ack s m ip = lease_reply s ack ack_event m ip

-- sendDhcpNak
unfoldable pub send_dhcp_nak : Server → Packet → List Action
send_dhcp_nak s m =
    send (record {
      kind = nak;
      xid = m.xid;
      yiaddr = 0;
      siaddr = 0;
      giaddr = m.giaddr;
      chaddr = m.chaddr;
      options = nak_options s;
      dest = destination m.giaddr;
    })
    ∷ log_rest (bare_event nak_event m.chaddr 0)
    ∷ []

-- The requested address, when sendDhcpOffer may offer it; 0 when another is to be picked.
unfoldable pub requested_offer : Env → Server → List ℕ → ℕ → ℕ
requested_offer env s mac ip =
    let fixed = is_static_binding_for_mac s mac ip in
    if not (ip == 0) && (is_ip_in_range s ip || fixed)
    then (if fixed
          || (not (address_declined env requested s ip)
              && not (is_some (probe_ip env requested ip)))
        then ip
        else 0)
    else 0

-- The rest of sendDhcpOffer, from the address that was chosen.
unfoldable pub offer_address : Env → Server → Packet → List ℕ → ℕ → Server × List Action
offer_address env s m name ip =
    let (s', reserved) = reserve_offer env s m.chaddr ip name in
    if ip == 0
    then (s, [])
    else if reserved
    then (s', lease_reply s' offer offer_event m ip)
    else (s', [])

-- sendDhcpOffer; none when the fuel of selectIp runs out.
unfoldable pub send_dhcp_offer :
    ℕ → Env → Server → Packet → ℕ → List ℕ → Option (Server × List Action)
send_dhcp_offer fuel env s m ip name =
    let asked = requested_offer env s m.chaddr ip in
    if asked == 0
    then elim (select_ip fuel env s m.chaddr) [
      | none ↦ none
      | some chosen ↦ some (offer_address env s m name chosen)
    ]
    else some (offer_address env s m name asked)

-- The address that a REQUEST asks for.
abbrev pub assign_ip : Packet → Options → ℕ
assign_ip m o = if o.requested_ip == 0 then m.ciaddr else o.requested_ip

-- `valid`
unfoldable pub is_valid_request : Server → List ℕ → ℕ → Bool
is_valid_request s mac ip =
    not (ip == 0)
    && (not (ip == s.server_ip) && (is_ip_in_range s ip || is_static_binding_for_mac s mac ip))

-- `ack`
unfoldable pub is_granted : Env → Server → List ℕ → ℕ → Bool
is_granted env s mac ip =
    if is_static_binding_for_mac s mac ip then true else elim (find ip s.leases) [
      | some lease ↦ bytes_eq lease.mac mac
      | none ↦
          if address_declined env request s ip
          then false
          else elim (probe_ip env request ip) [ none ↦ true | some owner ↦ bytes_eq owner mac ]
    ]

unfoldable pub handle_request : Env → Server → Packet → Options → List ℕ → Server × List Action
handle_request env s m o name =
    let ip = assign_ip m o in
    let (s', room) = can_add_lease_entry env s ip in
    if not (o.server_id == 0 || o.server_id == s.server_ip)
    then (s, [])
    else if is_valid_request s m.chaddr ip && is_granted env s m.chaddr ip
    then (if room
        then (add_lease_entry env s' m.chaddr ip name, send_dhcp_ack s' m ip)
        else (s', send_dhcp_nak s' m))
    else (s, send_dhcp_nak s m)

unfoldable pub handle_release : Server → Packet → Server × List Action
handle_release s m = elim (find m.ciaddr s.leases) [
  | none ↦ (s, [])
  | some lease ↦ (
    record s { leases = erase m.ciaddr s.leases },
    log_rest (bare_event release_event lease.mac m.ciaddr) ∷ [],
  )
]

-- The refusing client's own lease goes; another client's stays.
unfoldable pub drop_own_lease : Server → List ℕ → ℕ → Server
drop_own_lease s mac ip = elim (find ip s.leases) [
  | none ↦ s
  | some lease ↦ if bytes_eq lease.mac mac then record s { leases = erase ip s.leases } else s
]

unfoldable pub handle_decline : Env → Server → Packet → Options → Server × List Action
handle_decline env s m o =
    let s' = drop_own_lease s m.chaddr o.requested_ip in
    (
      record s' { declined = (Declined.add s'.declined o.requested_ip (time_ms env decline)).0 },
      log_rest (bare_event decline_event m.chaddr o.requested_ip) ∷ [],
    )

-- The switch on the message type.
unfoldable pub dispatch :
    ℕ → Env → Server → Packet → Options → List ℕ → Option (Server × List Action)
dispatch fuel env s m o name =
    if o.msg_type == 1
    then send_dhcp_offer fuel env s m o.requested_ip name
    else if o.msg_type == 3
    then some (handle_request env s m o name)
    else if o.msg_type == 7
    then some (handle_release s m)
    else if o.msg_type == 4
    then some (handle_decline env s m o)
    else some (s, [])

-- What a handled packet leaves: the server, the actions, and the answer of handleDhcpMessage.
pub record Handled : Type 0 where
  pub server : Server
  pub actions : List Action
  pub answer : Bool

abbrev pub ignored : Server → Handled
ignored s = record { server = s; actions = []; answer = false }

abbrev pub answered : Option (Server × List Action) → Option Handled
answered none = none
answered (some (s, actions)) = some (record { server = s; actions = actions; answer = true })

-- The name in the options that were received.
unfoldable pub client_name : (ℕ → ℕ) → ℕ → List ℕ
client_name buf len =
    if ltb options_offset len
    then from_options (load_bytes buf options_offset (len - options_offset))
    else []

-- handleDhcpMessage on the buffer and the length of the datagram; 0x63825363 is the cookie.
unfoldable pub handle_dhcp_message : ℕ → Env → Server → (ℕ → ℕ) → ℕ → Option Handled
handle_dhcp_message fuel env s buf len =
    let m = load_packet buf in
    let o = parse_options buf in
    if ltb len 240
    then some (ignored s)
    else if not (ntohl m.cookie == 0x63825363)
    then some (ignored s)
    else if o.msg_type == 0
    then some (ignored s)
    else if not (is_client_allowed m.chaddr s.allow_only s.allowed_list s.allowed_static_refs)
    then some (ignored s)
    else answered (dispatch fuel env s m o (client_name buf len))

-- What recvfrom returns: an error or the timeout, or a datagram that it put into the buffer.
pub data Received : Type 0 where
  nothing : Received
  datagram : (ℕ → ℕ) → ℕ → Received

-- One round of serverLoop: expired leases go first, whatever was received.
unfoldable pub server_round : ℕ → Env → Server → Received → Option Handled
server_round fuel env s nothing =
    some (ignored (record s { leases = remove_expired (time_sec env loop) s.leases }))
server_round fuel env s (datagram buf len) =
    handle_dhcp_message fuel env (record s { leases = remove_expired (time_sec env loop) s.leases })
      buf len
