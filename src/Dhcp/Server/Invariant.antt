-- ===== src/Dhcp/Server/Invariant.antt =====
-- The lease table stays a table of bounded size through every packet.
use dhcpserver.Base.{
  ℕ, ◌+◌, ◌%◌, ◌∙◌, u32_mod, ◌≤◌, ◌≡◌, refl, subst, inl, inr, true, List, [], ◌∷◌, Option, none,
  some, ltb, length, arith, Bool-cases, Option-cases,
}
use dhcpserver.Dhcp.Declined.Holding
use dhcpserver.Dhcp.Declined.Holding.{add-IsValid}
use dhcpserver.Dhcp.Leases.{Lease, find, insert, remove_expired}
use dhcpserver.Dhcp.Leases.Laws.{
  IsTable, remove_expired-IsTable, length-remove_expired-le, length-erase-le, length-insert-le,
  length-insert_old, insert-IsTable, erase-IsTable, find-ip,
}
use dhcpserver.Dhcp.Server.{
  Server, Env, purge, existing, loop, offer_hold_sec, time_sec, can_add_lease_entry,
  add_lease_entry, reserve_entry, reserve_offer, named,
}
use dhcpserver.Dhcp.Server.Packet.{Packet, Options}
use dhcpserver.Dhcp.Server.Requests.{
  Requested, other_server, refused, no_room, granted, Requested-handle_request, dispatch_cases,
  handle_cases,
}
use dhcpserver.Dhcp.Server.Handler.{
  Action, Handled, offer_address, assign_ip, handle_release, drop_own_lease, handle_decline,
  dispatch, answered, handle_dhcp_message, Received, nothing, datagram, server_round,
}

-- The table is in order with every lease under its own address, it has no more entries than the
-- limit, and the hold-down table is well formed.
pub record IsValid (s : Server) : Type 0 where
  pub table : IsTable s.leases
  pub bounded : length s.leases ≤ s.max_lease_entries_effective
  pub declined : Holding.IsValid s.declined

can_add_lease_entry-IsValid :
    (env : Env) (s : Server) (ip : ℕ) → IsValid s → IsValid (can_add_lease_entry env s ip).0
unfolding can_add_lease_entry
can_add_lease_entry-IsValid env s ip v = ground (
  arith,
  remove_expired-IsTable (time_sec env purge) s.leases v.table,
  length-remove_expired-le (time_sec env purge) s.leases,
)

-- The answer is yes only where an insertion keeps the limit.
can_add_lease_entry_room :
    (env : Env) (s : Server) (ip : ℕ) (l : Lease)
    → IsValid s
    → (can_add_lease_entry env s ip).1 ≡ true
    → length (insert ip l (can_add_lease_entry env s ip).0.leases) ≤ s.max_lease_entries_effective
unfolding can_add_lease_entry
can_add_lease_entry_room env s ip l v h = ground (
  arith,
  length-insert_old ip l s.leases v.table,
  length-insert-le ip l s.leases,
  length-insert-le ip l (remove_expired (time_sec env purge) s.leases),
)

can_add_lease_entry_cap :
    (env : Env) (s : Server) (ip : ℕ)
    → (can_add_lease_entry env s ip).0.max_lease_entries_effective ≡ s.max_lease_entries_effective
unfolding can_add_lease_entry
can_add_lease_entry_cap env s ip = ground arith

-- Storing a lease after the answer yes.
stored-IsValid :
    (env : Env) (s : Server) (ip : ℕ) (l : Lease)
    → IsValid s
    → (can_add_lease_entry env s ip).1 ≡ true
    → l.ip ≡ ip
    → let s' = (can_add_lease_entry env s ip).0 in
      IsValid (record s' { leases = insert ip l s'.leases })
stored-IsValid env s ip l v h e =
    let w = can_add_lease_entry-IsValid env s ip v in
    record {
      table = insert-IsTable ip l _ e w.table;
      bounded =
          omega (arith, can_add_lease_entry_room env s ip l v h, can_add_lease_entry_cap env s ip);
      declined = w.declined;
    }

reserve_entry-IsValid :
    (env : Env) (s : Server) (mac : List ℕ) (ip : ℕ) (name : List ℕ)
    → IsValid s
    → IsValid (reserve_entry env s mac ip name).0
unfolding reserve_entry
reserve_entry-IsValid env s mac ip name v = elim (Bool-cases (can_add_lease_entry env s ip).1) [
  | inl yes_room ↦ rw yes_room (stored-IsValid env s ip _ v yes_room refl)
  | inr full ↦ rw full (can_add_lease_entry-IsValid env s ip v)
]

named-ip : (l : Lease) (name : List ℕ) → (named l name).ip ≡ l.ip
named-ip l [] = refl
named-ip l (c ∷ cs) = refl

reserve_offer-IsValid :
    (env : Env) (s : Server) (mac : List ℕ) (ip : ℕ) (name : List ℕ)
    → IsValid s
    → IsValid (reserve_offer env s mac ip name).0
unfolding reserve_offer
reserve_offer-IsValid env s mac ip name v = elim (Option-cases (find ip s.leases)) [
  | inl n ↦ rw (n, reserve_offer) (reserve_entry-IsValid env s mac ip name v)
  | inr (l, f) ↦
      elim (Bool-cases (ltb ((time_sec env existing + offer_hold_sec) % u32_mod) l.expiry)) [
        | inr short ↦ rw (f, short, reserve_offer) (reserve_entry-IsValid env s mac ip name v)
        | inl long ↦
            rw (f, long, reserve_offer)
              (record {
                table =
                    insert-IsTable ip (named l name) s.leases
                      (named-ip l name ∙ find-ip ip s.leases l v.table f) v.table;
                bounded =
                    omega (arith, length-insert_old ip (named l name) s.leases v.table (rw f refl));
                declined = v.declined;
              })
      ]
]

offer_address-IsValid :
    (env : Env) (s : Server) (m : Packet) (name : List ℕ) (ip : ℕ)
    → IsValid s
    → IsValid (offer_address env s m name ip).0
unfolding offer_address
offer_address-IsValid env s m name ip v =
    ground (arith, reserve_offer-IsValid env s m.chaddr ip name v)

Requested-IsValid :
    {env : Env} {s : Server} {m : Packet} {o : Options} {name : List ℕ} {r : Server × List Action}
    → Requested env s m o name r
    → IsValid s
    → IsValid r.0
unfolding add_lease_entry
Requested-IsValid (other_server a) v = v
Requested-IsValid (refused a g) v = v
Requested-IsValid {env} {s} {m} {o} (no_room a g r) v =
    can_add_lease_entry-IsValid env s (assign_ip m o) v
Requested-IsValid {env} {s} {m} {o} (granted a g r) v =
    stored-IsValid env s (assign_ip m o) _ v r refl

handle_release-IsValid : (s : Server) (m : Packet) → IsValid s → IsValid (handle_release s m).0
unfolding handle_release
handle_release-IsValid s m v =
    ground (arith, erase-IsTable m.ciaddr s.leases v.table, length-erase-le m.ciaddr s.leases)

drop_own_lease-IsValid :
    (s : Server) (mac : List ℕ) (ip : ℕ) → IsValid s → IsValid (drop_own_lease s mac ip)
unfolding drop_own_lease
drop_own_lease-IsValid s mac ip v =
    ground (arith, erase-IsTable ip s.leases v.table, length-erase-le ip s.leases)

handle_decline-IsValid :
    (env : Env) (s : Server) (m : Packet) (o : Options)
    → IsValid s
    → IsValid (handle_decline env s m o).0
unfolding handle_decline
handle_decline-IsValid env s m o v =
    let w = drop_own_lease-IsValid s m.chaddr o.requested_ip v in
    record {
      table = w.table;
      bounded = w.bounded;
      declined = add-IsValid _ o.requested_ip _ w.declined;
    }

-- `P` holds of the server that a result leaves, where there is one.
abbrev Leaves : Option (Server × List Action) → Type 0
Leaves none = Unit {0}
Leaves (some r) = IsValid r.0

dispatch-IsValid :
    (fuel : ℕ) (env : Env) (s : Server) (m : Packet) (o : Options) (name : List ℕ)
    → IsValid s
    → Leaves (dispatch fuel env s m o name)
dispatch-IsValid fuel env s m o name v =
    dispatch_cases Leaves fuel env s m o name tt (λ _ ip. offer_address-IsValid env s m name ip v)
      (λ _. Requested-IsValid (Requested-handle_request env s m o name) v)
      (λ _. handle_release-IsValid s m v) (λ _. handle_decline-IsValid env s m o v) v

abbrev Kept : Option Handled → Type 0
Kept none = Unit {0}
Kept (some h) = IsValid h.server

answered-Kept : (r : Option (Server × List Action)) → Leaves r → Kept (answered r)
answered-Kept none l = tt
answered-Kept (some (s, actions)) l = l

handle_dhcp_message-Kept :
    (fuel : ℕ) (env : Env) (s : Server) (buf : ℕ → ℕ) (len : ℕ)
    → IsValid s
    → Kept (handle_dhcp_message fuel env s buf len)
handle_dhcp_message-Kept fuel env s buf len v =
    handle_cases Kept fuel env s buf len v
      (λ _. answered-Kept _ (dispatch-IsValid fuel env s _ _ _ v))

expired-IsValid :
    (now : ℕ) (s : Server) → IsValid s → IsValid (record s { leases = remove_expired now s.leases })
expired-IsValid now s v = record {
  table = remove_expired-IsTable now s.leases v.table;
  bounded = omega (arith, length-remove_expired-le now s.leases, v.bounded);
  declined = v.declined;
}

server_round-Kept :
    (fuel : ℕ) (env : Env) (s : Server) (r : Received)
    → IsValid s
    → Kept (server_round fuel env s r)
unfolding server_round
server_round-Kept fuel env s nothing v = expired-IsValid (time_sec env loop) s v
server_round-Kept fuel env s (datagram buf len) v =
    handle_dhcp_message-Kept fuel env _ buf len (expired-IsValid (time_sec env loop) s v)

-- The servers that a server becomes, whatever it receives and whatever its environment answers.
pub data Reach (s : Server) : Server → Type 0 where
  here : Reach s s
  next :
      {t : Server} (fuel : ℕ) (env : Env) (r : Received) (h : Handled)
      → Reach s t
      → server_round fuel env t r ≡ some h
      → Reach s h.server

-- From a well-formed server, no sequence of rounds, whatever the packets, the clock and the network
-- answer, makes the lease table larger than its limit, puts a lease under another address, or
-- breaks the hold-down table.
pub Reach-IsValid : {s t : Server} → IsValid s → Reach s t → IsValid t
Reach-IsValid v here = v
Reach-IsValid v (next {t} fuel env r h reach e) =
    subst Kept e (server_round-Kept fuel env t r (Reach-IsValid v reach))
