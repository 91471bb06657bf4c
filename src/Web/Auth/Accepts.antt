-- ===== src/Web/Auth/Accepts.antt =====
-- Whom a check of AuthManager lets in, against a description of its own of the lockout and of the
-- header.
use dhcpserver.Base.{
  ℕ, ◌+◌, ◌-◌, ◌%◌, ◌≤◌, ◌≡◌, ◌≢◌, ◌↔◌, [], ◌∷◌, ◌++◌, ◌==◌, u32_mod, inl, inr, sym, ap, ◌∙◌, Bool,
  true, false, List, some, arith, Bool-cases, Option-cases,
}
use dhcpserver.Web.Auth.Checks.{verify_steps}
use dhcpserver.Web.Auth.{
  FailedEntry, AuthManager, Decoded, Times, seconds, is_over, kept_failures, cleanup_expired,
  is_locked_out, credentials, verify, split_colon,
}
use dhcpserver.Dhcp.Server.Packet.{load_bytes}
use dhcpserver.Web.Auth.Headers.{
  scheme, is_attempt, counts-is_attempt, is_attempt_sound, is_attempt_complete, NoColon,
  split_colon_sound, split_colon_complete,
}

not_nil : (user pass : List ℕ) → [] ≢ user ++ (b':' ∷ pass)
not_nil [] pass e = absurd (cc e)
not_nil (c ∷ cs) pass e = absurd (cc e)

is_free : (b : Bool) → b ≢ true → b ≡ false
is_free b n = elim (Bool-cases b) [ inl e ↦ absurd (n e) | inr e ↦ e ]

nonempty_bytes :
    (d : Decoded) (user pass : List ℕ)
    → load_bytes d.decoded 0 d.decoded_len ≡ user ++ (b':' ∷ pass)
    → (d.decoded_len == 0) ≡ false
unfolding load_bytes
nonempty_bytes d user pass e = elim (Bool-cases (d.decoded_len == 0)) [
  | inr some_bytes ↦ some_bytes
  | inl empty ↦
      let z : d.decoded_len ≡ 0 = ground (arith, empty) in
      absurd (not_nil user pass (sym (ap (load_bytes d.decoded 0) z) ∙ e))
]

-- The seconds since the first failure of an entry, in uint32_t.
abbrev pub elapsed : ℕ → FailedEntry → ℕ
elapsed now e = (now + u32_mod - e.first_attempt_time) % u32_mod

-- The client has an entry with as many failures as the limit, and neither reading of the clock
-- finds the lockout period passed.
abbrev pub Locked : AuthManager → Times → List ℕ → Type 0
Locked a times ip =
    (e : FailedEntry) × (a.failed_attempts ip ≡ some e)
    × (elapsed (seconds times.cleanup) e ≤ a.lockout_period_sec)
    × (elapsed (seconds times.lockout) e ≤ a.lockout_period_sec)
    × (a.max_attempts ≤ e.count)

-- The header is the scheme and a text that decodes to the user name, a colon and the password.
abbrev pub Presents : (List ℕ → Decoded) → AuthManager → List ℕ → Type 0
Presents decode a header =
    (text : List ℕ) × (header ≡ scheme ++ text)
    × (text ≢ [])
    × (load_bytes (decode text).decoded 0 (decode text).decoded_len
        ≡ a.username ++ (b':' ∷ a.password))

lockout_iff :
    (a : AuthManager) (times : Times) (ip : List ℕ)
    → ((is_locked_out (cleanup_expired a (seconds times.cleanup)) (seconds times.lockout) ip).1
        ≡ true)
      ↔ Locked a times ip
unfolding is_locked_out cleanup_expired kept_failures is_over
lockout_iff a times ip = (sound, complete)
  where
    sound :
        (is_locked_out (cleanup_expired a (seconds times.cleanup)) (seconds times.lockout) ip).1
          ≡ true
        → Locked a times ip
    sound h = elim (Option-cases (a.failed_attempts ip)) [
      | inl gone ↦ absurd (ground (arith, gone, h))
      | inr (e, held) ↦
          (e, held, ground (arith, held, h), ground (arith, held, h), ground (arith, held, h))
    ]

    complete :
        Locked a times ip
        → (is_locked_out (cleanup_expired a (seconds times.cleanup)) (seconds times.lockout) ip).1
          ≡ true
    complete (e, held, early, again, full) = ground (arith, held, early, again, full)

-- Credentials that the code takes for the configured pair are its text.
pub credentials-Presents :
    (decode : List ℕ → Decoded) (a : AuthManager) (header : List ℕ)
    → is_attempt header ≡ true
    → credentials decode header ≡ some (a.username, a.password)
    → Presents decode a header
unfolding credentials
credentials-Presents decode a header attempt e =
    let (text, shape, nonempty) = is_attempt_sound header attempt in
    let pair = ap (credentials decode) (sym shape) ∙ e in
    elim (Bool-cases ((decode text).decoded_len == 0)) [
      | inl empty ↦ absurd (ground (arith, empty, pair))
      | inr some_bytes ↦
          (text, shape, nonempty, split_colon_sound _ a.username a.password (rw some_bytes at pair))
    ]

pub Presents-credentials :
    (decode : List ℕ → Decoded) (a : AuthManager) (header : List ℕ)
    → NoColon a.username
    → Presents decode a header
    → credentials decode header ≡ some (a.username, a.password)
unfolding credentials
Presents-credentials decode a header plain (text, shape, nonempty, e) =
    rw (shape, nonempty_bytes (decode text) a.username a.password e)
      (ap split_colon e ∙ split_colon_complete a.username a.password plain)

-- A check of a manager whose user name has no colon answers yes exactly when the client is not
-- locked out and the header is "Basic " and a text that decodes to the user name, a colon and the
-- password; the password may have colons.
pub verify_iff :
    (decode : List ℕ → Decoded) (times : Times) (a : AuthManager) (header ip : List ℕ) (form : Bool)
    → NoColon a.username
    → ((verify decode times a header ip form).answer ≡ true)
      ↔ ((¬ Locked a times ip) × Presents decode a header)
verify_iff decode times a header ip form plain =
    let steps = verify_steps decode times a header ip form in
    let locks = lockout_iff a times ip in
    (
      λ e.
          let (free, counts, pair) = steps.0 e in
          (
            λ l. absurd (cc (free, locks.1 l)),
            credentials-Presents decode a header (sym (counts-is_attempt header) ∙ counts) pair,
          ),
      λ (free, (text, shape, nonempty, bytes)). steps.1 (
        is_free _ (λ l. free (locks.0 l)),
        counts-is_attempt header ∙ ap is_attempt shape ∙ is_attempt_complete text nonempty,
        Presents-credentials decode a header plain (text, shape, nonempty, bytes),
      ),
    )
