-- ===== src/Dhcp/Server/Range.antt =====
-- The walk of selectIp over the range, in a range of one /24 network.
use dhcpserver.Base.{
  ℕ, zero, suc, ◌+◌, ◌-◌, ◌*◌, ◌≤◌, ◌<◌, ◌≡◌, refl, subst, ◌∙◌, ap, sym, ◌≢◌, ◌⊎◌, inl, inr, true,
  false, List, none, some, leb, if◌then◌else◌, arith, Bool-cases, ntohl,
}
use dhcpserver.Dhcp.Leases.{find}
use dhcpserver.Dhcp.Server.{Server, Env, scanned, is_ip_in_range, address_declined, probe_ip}
use dhcpserver.Dhcp.Server.Select.{
  free_binding, own_lease, next_ip, passed_over, scan_range, select_ip,
}

-- The address with the last octet `o` in the /24 network whose three octets are `net`.
abbrev pub host : ℕ → ℕ → ℕ
host net o = net + o * 16777216

abbrev pub net_bound : ℕ
net_bound = 16777216

pub ntohl-host : (net o : ℕ) → net < net_bound → o < 256 → ntohl (host net o) ≡ ntohl net + o
unfolding ntohl
ntohl-host net o h k = omega arith

pub next_host : (net o : ℕ) → net < net_bound → o < 255 → next_ip (host net o) ≡ host net (o + 1)
unfolding next_ip ntohl
next_host net o h k = omega arith

-- What the walk is for: the first address of the network, of `n` from the octet `a` on, that is not
-- passed over, or 0.
pub first_free : ℕ → Env → Server → ℕ → ℕ → ℕ
first_free zero env s net a = 0
first_free (suc n) env s net a =
    if passed_over env s (host net a) then first_free n env s net (a + 1) else host net a

scan_range-first_free :
    (fuel n : ℕ) (env : Env) (s : Server) (net a b : ℕ)
    → net < net_bound
    → s.range_end ≡ host net b
    → b < 255
    → a + n ≡ b + 1
    → n < fuel
    → scan_range fuel env s (host net a) ≡ some (first_free n env s net a)
unfolding scan_range first_free
scan_range-first_free zero n env s net a b hn he hb e f = absurd (omega arith)
scan_range-first_free (suc fuel) zero env s net a b hn he hb e f =
    let out : leb (host net a) s.range_end ≡ false = ground arith in rw out refl
scan_range-first_free (suc fuel) (suc n) env s net a b hn he hb e f =
    let within : leb (host net a) s.range_end ≡ true = ground arith in
    let later =
      subst (λ x. scan_range fuel env s x ≡ some (first_free n env s net (a + 1)))
        (sym (next_host net a hn (omega arith)))
        (scan_range-first_free fuel n env s net (a + 1) b hn he hb (omega arith) (omega arith)) in
    elim (Bool-cases (passed_over env s (host net a))) [
      | inl p ↦ rw (within, p) later
      | inr p ↦ rw (within, p) refl
    ]

-- What `first_free` returns: an address of the network that is not passed over while all before it
-- are, or 0 when all are.
abbrev pub FoundIn : Env → Server → ℕ → ℕ → ℕ → ℕ → Type 0
FoundIn env s net a n r =
    ((k : ℕ) × (k < n)
      × (r ≡ host net (a + k))
      × (passed_over env s r ≡ false)
      × ((j : ℕ) → j < k → passed_over env s (host net (a + j)) ≡ true))
    ⊎ ((r ≡ 0) × ((j : ℕ) → j < n → passed_over env s (host net (a + j)) ≡ true))

extend_passed :
    (env : Env) (s : Server) (net a n : ℕ)
    → passed_over env s (host net a) ≡ true
    → ((j : ℕ) → j < n → passed_over env s (host net (a + 1 + j)) ≡ true)
    → (j : ℕ) → j < suc n
    → passed_over env s (host net (a + j)) ≡ true
extend_passed env s net a n p all zero h = let e : a + 0 ≡ a = omega arith in rw e p
extend_passed env s net a n p all (suc j) h =
    let e : a + suc j ≡ a + 1 + j = omega arith in rw e (all j (omega arith))

first_free-FoundIn :
    (n : ℕ) (env : Env) (s : Server) (net a : ℕ) → FoundIn env s net a n (first_free n env s net a)
unfolding first_free
first_free-FoundIn zero env s net a = inr (refl, λ j h. absurd (omega arith))
first_free-FoundIn (suc n) env s net a = elim (Bool-cases (passed_over env s (host net a))) [
  | inr p ↦ rw p (inl (0, omega arith, omega arith, p, λ j h. absurd (omega arith)))
  | inl p ↦ rw p (elim (first_free-FoundIn n env s net (a + 1)) [
    | inl (k, h, e, q, all) ↦
        inl (suc k, omega arith, omega arith, q, extend_passed env s net a k p all)
    | inr (z, all) ↦ inr (z, extend_passed env s net a n p all)
  ])
]

-- The address is nobody's: neither the server's, nor leased, nor held down, nor met by the probe.
pub record IsUnclaimed (env : Env) (s : Server) (ip : ℕ) : Type 0 where
  pub foreign : ip ≢ s.server_ip
  pub unleased : find ip s.leases ≡ none
  pub not_declined : address_declined env (scanned ip) s ip ≡ false
  pub silent : probe_ip env (scanned ip) ip ≡ none

IsUnclaimed-passed_over :
    (env : Env) (s : Server) (ip : ℕ) → passed_over env s ip ≡ false → IsUnclaimed env s ip
unfolding passed_over
IsUnclaimed-passed_over env s ip h = record {
  foreign = ground arith;
  unleased = ground arith;
  not_declined = ground arith;
  silent = ground arith;
}

in_network :
    (s : Server) (net a b o : ℕ)
    → net < net_bound
    → s.range_start ≡ host net a
    → s.range_end ≡ host net b
    → b < 255
    → a ≤ o
    → o ≤ b
    → host net o ≢ s.server_ip
    → is_ip_in_range s (host net o) ≡ true
unfolding is_ip_in_range
in_network s net a b o hn hs he hb l u f =
    rw (hs, he) (ground (arith, ntohl-host net a hn, ntohl-host net b hn, ntohl-host net o hn))

at_offset :
    (env : Env) (s : Server) (net a n o : ℕ)
    → ((j : ℕ) → j < n → passed_over env s (host net (a + j)) ≡ true)
    → a ≤ o
    → o < a + n
    → passed_over env s (host net o) ≡ true
at_offset env s net a n o all l u =
    let e : a + (o - a) ≡ o = omega arith in
    subst (λ x. passed_over env s (host net x) ≡ true) e (all (o - a) (omega arith))

FoundIn-range :
    (env : Env) (s : Server) (net a b : ℕ)
    → net < net_bound
    → s.range_start ≡ host net a
    → s.range_end ≡ host net b
    → a ≤ b
    → b < 255
    → (r : ℕ) → FoundIn env s net a (b + 1 - a) r
    → ((is_ip_in_range s r ≡ true)
        × IsUnclaimed env s r
        × ((o : ℕ) → a ≤ o → host net o < r → passed_over env s (host net o) ≡ true))
      ⊎ ((r ≡ 0) × ((o : ℕ) → a ≤ o → o ≤ b → passed_over env s (host net o) ≡ true))
FoundIn-range env s net a b hn hs he hab hb r (inl (k, hk, e, p, all)) =
    let free = IsUnclaimed-passed_over env s r p in
    inl (
      subst (λ x. is_ip_in_range s x ≡ true) (sym e)
          (in_network s net a b (a + k) hn hs he hb (omega arith) (omega arith)
            (λ q. free.foreign (e ∙ q))),
      free,
      λ o l u. at_offset env s net a k o all l (omega arith),
    )
FoundIn-range env s net a b hn hs he hab hb r (inr (z, all)) =
    inr (z, λ o l u. at_offset env s net a (b + 1 - a) o all l (omega arith))

-- For a client with neither a free binding nor a lease of its own, and a range within one /24
-- network that ends below .255, the selection ends, with 256 addresses tried at most. It returns an
-- address of the range that is unclaimed, the lowest one that is not passed over, or else 0, and
-- then every address of the range was passed over.
pub select_ip-in_network :
    (fuel : ℕ) (env : Env) (s : Server) (mac : List ℕ) (net a b : ℕ)
    → net < net_bound
    → s.range_start ≡ host net a
    → s.range_end ≡ host net b
    → a ≤ b
    → b < 255
    → 256 ≤ fuel
    → free_binding s.static_bindings s.leases mac ≡ none
    → own_lease s.leases mac ≡ none
    → (r : ℕ) × (select_ip fuel env s mac ≡ some r)
      × (((is_ip_in_range s r ≡ true)
            × IsUnclaimed env s r
            × ((o : ℕ) → a ≤ o → host net o < r → passed_over env s (host net o) ≡ true))
          ⊎ ((r ≡ 0) × ((o : ℕ) → a ≤ o → o ≤ b → passed_over env s (host net o) ≡ true)))
unfolding select_ip
select_ip-in_network fuel env s mac net a b hn hs he hab hb hf unbound unleased = (
  first_free (b + 1 - a) env s net a,
  rw (unbound, unleased, select_ip)
      (ap (scan_range fuel env s) hs
        ∙ scan_range-first_free fuel (b + 1 - a) env s net a b hn he hb (omega arith)
            (omega arith)),
  FoundIn-range env s net a b hn hs he hab hb (first_free (b + 1 - a) env s net a)
      (first_free-FoundIn (b + 1 - a) env s net a),
)
