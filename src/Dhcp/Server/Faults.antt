-- ===== src/Dhcp/Server/Faults.antt =====
-- Where the selection of an address does not do what it means to: a range that crosses a network or
-- ends in .255.
use dhcpserver.Base.{
  ℕ, zero, suc, ◌+◌, ◌-◌, ◌≤◌, ◌<◌, ◌≡◌, refl, subst, ◌∙◌, ap, ap₂, sym, true, false, List, none,
  some, ltb, leb, arith, ntohl, u32_mod,
}
use dhcpserver.Dhcp.Server.{
  Server, Env, DhcpConfig, min_lease_entries, apply_lease_limit, auto_limit, clamp_limit,
  is_ip_in_range,
}
use dhcpserver.Dhcp.Server.Select.{
  free_binding, own_lease, next_ip, passed_over, scan_range, select_ip,
}
use dhcpserver.Dhcp.Server.Range.{host, net_bound, ntohl-host, next_host}

-- The fault of comparing addresses in network byte order: where the last octet of the range's start
-- is above that of its end, as in every range that crosses networks so, a client with neither a
-- binding nor a lease is told that no address is available, whatever is free.
pub select_ip_crossing :
    (fuel : ℕ) (env : Env) (s : Server) (mac : List ℕ) (net net' a b : ℕ)
    → net' < net_bound
    → s.range_start ≡ host net a
    → s.range_end ≡ host net' b
    → b < a
    → 0 < fuel
    → free_binding s.static_bindings s.leases mac ≡ none
    → own_lease s.leases mac ≡ none
    → select_ip fuel env s mac ≡ some 0
unfolding select_ip scan_range
select_ip_crossing zero env s mac net net' a b hn hs he h hf unbound unleased = absurd (omega arith)
select_ip_crossing (suc fuel) env s mac net net' a b hn hs he h hf unbound unleased =
    let out : leb s.range_start s.range_end ≡ false = ground arith in
    rw (unbound, unleased, select_ip) (rw out refl)

scan_range-skip :
    (n fuel total : ℕ) (env : Env) (s : Server) (net a : ℕ)
    → net < net_bound
    → s.range_end ≡ host net 255
    → a + n ≡ 255
    → total ≡ n + suc fuel
    → ((o : ℕ) → a ≤ o → o ≤ 255 → passed_over env s (host net o) ≡ true)
    → scan_range total env s (host net a) ≡ scan_range fuel env s (next_ip s.range_end)
unfolding scan_range
scan_range-skip zero fuel zero env s net a hn he e t all = absurd (omega arith)
scan_range-skip (suc n) fuel zero env s net a hn he e t all = absurd (omega arith)
scan_range-skip zero fuel (suc total) env s net a hn he e t all =
    let within : leb (host net a) s.range_end ≡ true = ground arith in
    let last : host net a ≡ s.range_end = omega arith in
    let left : total ≡ fuel = omega arith in
    rw (within, all a (omega arith) (omega arith))
      (ap₂ (λ f x. scan_range f env s (next_ip x)) left last)
scan_range-skip (suc n) fuel (suc total) env s net a hn he e t all =
    let within : leb (host net a) s.range_end ≡ true = ground arith in
    rw (within, all a (omega arith) (omega arith))
      (ap (scan_range total env s) (next_host net a hn (omega arith))
        ∙ scan_range-skip n fuel total env s net (a + 1) hn he (omega arith) (omega arith)
            (λ o l u. all o (omega arith) u))

after_network :
    (net : ℕ)
    → net < net_bound
    → ntohl net + 256 < u32_mod
    → (next_ip (host net 255) ≤ host net 255) × (ntohl (next_ip (host net 255)) ≡ ntohl net + 256)
unfolding next_ip ntohl
after_network net h k = omega arith

scan_range_stops :
    (fuel : ℕ) (env : Env) (s : Server) (net : ℕ)
    → net < net_bound
    → ntohl net + 256 < u32_mod
    → s.range_end ≡ host net 255
    → 0 < fuel
    → passed_over env s (next_ip s.range_end) ≡ false
    → scan_range fuel env s (next_ip s.range_end) ≡ some (next_ip s.range_end)
unfolding scan_range
scan_range_stops zero env s net hn hw he h free = absurd (omega arith)
scan_range_stops (suc fuel) env s net hn hw he h free =
    let le = (after_network net hn hw).0 in
    let le' : next_ip s.range_end ≤ s.range_end = subst (λ x. next_ip x ≤ x) (sym he) le in
    let within : leb (next_ip s.range_end) s.range_end ≡ true = ground arith in
    rw (within, free) refl

behind_range :
    (s : Server) (net : ℕ)
    → net < net_bound
    → ntohl net + 256 < u32_mod
    → s.range_end ≡ host net 255
    → is_ip_in_range s (next_ip s.range_end) ≡ false
unfolding is_ip_in_range
behind_range s net hn hw he =
    let top : ntohl s.range_end ≡ ntohl net + 255 =
      ap ntohl he ∙ ntohl-host net 255 hn (omega arith) in
    let past : ntohl (next_ip s.range_end) ≡ ntohl net + 256 =
      ap (λ x. ntohl (next_ip x)) he ∙ (after_network net hn hw).1 in
    ground arith

-- The other fault of that comparison: where the range ends in .255 and every address of it is
-- passed over, the walk goes on behind the end, and offers the first address of the next network
-- when that one is not passed over, though it does not lie in the range.
pub select_ip_escapes :
    (fuel : ℕ) (env : Env) (s : Server) (mac : List ℕ) (net a : ℕ)
    → net < net_bound
    → ntohl net + 256 < u32_mod
    → s.range_start ≡ host net a
    → s.range_end ≡ host net 255
    → a ≤ 255
    → 257 ≤ fuel
    → free_binding s.static_bindings s.leases mac ≡ none
    → own_lease s.leases mac ≡ none
    → ((o : ℕ) → a ≤ o → o ≤ 255 → passed_over env s (host net o) ≡ true)
    → passed_over env s (next_ip s.range_end) ≡ false
    → (select_ip fuel env s mac ≡ some (next_ip s.range_end))
      × (is_ip_in_range s (next_ip s.range_end) ≡ false)
unfolding select_ip
select_ip_escapes fuel env s mac net a hn hw hs he ha hf unbound unleased all free = (
  rw (unbound, unleased, select_ip)
      (ap (scan_range fuel env s) hs
        ∙ scan_range-skip (255 - a) (fuel - 256 + a) fuel env s net a hn he (omega arith)
            (omega arith) all
        ∙ scan_range_stops (fuel - 256 + a) env s net hn hw he (omega arith) free),
  behind_range s net hn hw he,
)

-- The lease limit misjudges the same ranges: with the automatic setting it falls to the minimum of
-- min_lease_entries, however large the range is.
pub apply_lease_limit_crossing :
    (cfg : DhcpConfig) (s : Server) (net net' a b : ℕ)
    → net' < net_bound
    → cfg.start_ip ≡ host net a
    → cfg.end_ip ≡ host net' b
    → b < a
    → cfg.max_lease_entries ≡ 0
    → (apply_lease_limit cfg s).max_lease_entries_effective ≡ min_lease_entries
unfolding apply_lease_limit auto_limit clamp_limit
apply_lease_limit_crossing cfg s net net' a b hn hs he h auto =
    let out : ltb cfg.start_ip cfg.end_ip ≡ false = ground arith in ground (arith, out)
