-- ===== src/Web/Auth/Checks.antt =====
-- One check of AuthManager: whom it lets in, and whose entry it changes.
use dhcpserver.Base.{
  ℕ, ◌≡◌, ◌≢◌, ◌↔◌, inl, inr, refl, sym, ap₂, ◌∙◌, Bool, true, false, ◌&&◌, List, Option, none,
  some, bytes_eq, bytes_eq_refl, bytes_eq_sound, arith, Bool-cases, Option-cases,
}
use dhcpserver.Web.Auth.{
  FailedEntry, AuthManager, Decoded, Times, seconds, is_over, erase_failures, put_failures,
  kept_failures, cleanup_expired, is_locked_out, counts_as_failed_attempt, failed_again,
  failures_of, record_failure, record_success, credentials, check_credentials, verify,
}

pub bytes_ne : (xs ys : List ℕ) → xs ≢ ys → bytes_eq xs ys ≡ false
bytes_ne xs ys n = elim (Bool-cases (bytes_eq xs ys)) [
  | inl e ↦ absurd (n (bytes_eq_sound xs ys e))
  | inr e ↦ e
]

-- The settings that no check changes.
pub record SameSettings (a b : AuthManager) : Type 0 where
  pub username : b.username ≡ a.username
  pub password : b.password ≡ a.password
  pub max_attempts : b.max_attempts ≡ a.max_attempts
  pub lockout_period_sec : b.lockout_period_sec ≡ a.lockout_period_sec

pub same_settings : (a : AuthManager) → SameSettings a a
same_settings a = record {
  username = refl;
  password = refl;
  max_attempts = refl;
  lockout_period_sec = refl;
}

-- What a check does to the manager `a`, seen from another client.
pub record Apart (a : AuthManager) (now : ℕ) (j : List ℕ) (b : AuthManager) : Type 0 where
  pub settings : SameSettings a b
  pub entry : b.failed_attempts j ≡ kept_failures a now (a.failed_attempts j)

pub Apart-with :
    (a b : AuthManager) (now : ℕ) (j : List ℕ) (failed : List ℕ → Option FailedEntry)
    → SameSettings a b
    → failed j ≡ kept_failures a now (a.failed_attempts j)
    → Apart a now j (record b { failed_attempts = failed })
Apart-with a b now j failed s e = record {
  settings = record {
    username = s.username;
    password = s.password;
    max_attempts = s.max_attempts;
    lockout_period_sec = s.lockout_period_sec;
  };
  entry = e;
}

erased_elsewhere :
    (ip j : List ℕ) (failed : List ℕ → Option FailedEntry)
    → j ≢ ip
    → erase_failures ip failed j ≡ failed j
unfolding erase_failures
erased_elsewhere ip j failed n = rw (bytes_ne j ip n) refl

put_elsewhere :
    (ip j : List ℕ) (e : FailedEntry) (failed : List ℕ → Option FailedEntry)
    → j ≢ ip
    → put_failures ip e failed j ≡ failed j
unfolding put_failures
put_elsewhere ip j e failed n = rw (bytes_ne j ip n) refl

Apart-cleanup : (a : AuthManager) (now : ℕ) (j : List ℕ) → Apart a now j (cleanup_expired a now)
unfolding cleanup_expired
Apart-cleanup a now j = Apart-with a a now j _ (same_settings a) refl

Apart-is_locked_out :
    (a b : AuthManager) (now later : ℕ) (ip j : List ℕ)
    → j ≢ ip
    → Apart a now j b
    → Apart a now j (is_locked_out b later ip).0
unfolding is_locked_out
Apart-is_locked_out a b now later ip j n p = elim (Option-cases (b.failed_attempts ip)) [
  | inl e ↦ rw (e, is_locked_out) p
  | inr (f, e) ↦ elim (Bool-cases (is_over b later f)) [
    | inl over ↦
        rw (e, is_locked_out)
          (rw over (
            Apart-with a b now j _ p.settings
              (erased_elsewhere ip j b.failed_attempts n ∙ p.entry)))
    | inr held ↦ rw (e, is_locked_out) (rw held p)
  ]
]

Apart-record_failure :
    (a b : AuthManager) (now later : ℕ) (ip j : List ℕ)
    → j ≢ ip
    → Apart a now j b
    → Apart a now j (record_failure b later ip).manager
unfolding record_failure
Apart-record_failure a b now later ip j n p =
    Apart-with a b now j _ p.settings
      (put_elsewhere ip j (failed_again (failures_of b ip) later) b.failed_attempts n ∙ p.entry)

Apart-check_credentials :
    (a b : AuthManager) (now later : ℕ) (ip j : List ℕ) (form : Bool) (c : Option (List ℕ × List ℕ))
    → j ≢ ip
    → Apart a now j b
    → Apart a now j (check_credentials b later ip form c).manager
unfolding check_credentials record_success
Apart-check_credentials a b now later ip j form none n p =
    Apart-record_failure a b now later ip j n p
Apart-check_credentials a b now later ip j form (some (user, pass)) n p =
    elim (Bool-cases (bytes_eq user b.username && bytes_eq pass b.password)) [
      | inl right ↦
          rw right (
            Apart-with a b now j _ p.settings (erased_elsewhere ip j b.failed_attempts n ∙ p.entry))
      | inr wrong ↦ rw wrong (Apart-record_failure a b now later ip j n p)
    ]

pub verify-Apart :
    (decode : List ℕ → Decoded) (times : Times) (a : AuthManager) (header ip : List ℕ) (form : Bool)
    (j : List ℕ)
    → j ≢ ip
    → Apart a (seconds times.cleanup) j (verify decode times a header ip form).manager
unfolding verify
verify-Apart decode times a header ip form j n =
    let b =
      (is_locked_out (cleanup_expired a (seconds times.cleanup)) (seconds times.lockout) ip) in
    let p =
      Apart-is_locked_out a (cleanup_expired a (seconds times.cleanup)) (seconds times.cleanup)
        (seconds times.lockout) ip j n (Apart-cleanup a (seconds times.cleanup) j) in
    elim (Bool-cases b.1) [
      | inl locked ↦ rw locked p
      | inr free ↦ elim (Bool-cases (counts_as_failed_attempt header)) [
        | inl counts ↦
            rw (free, counts)
              (Apart-check_credentials a b.0 (seconds times.cleanup) (seconds times.failure) ip j
                form (credentials decode header) n p)
        | inr bare ↦ rw (free, bare) p
      ]
    ]

-- A check for one client leaves the failures that are counted for every other client as they are,
-- except that they are forgotten when the lockout period has passed.
pub verify-other :
    (decode : List ℕ → Decoded) (times : Times) (a : AuthManager) (header ip : List ℕ) (form : Bool)
    (j : List ℕ)
    → j ≢ ip
    → (verify decode times a header ip form).manager.failed_attempts j
      ≡ kept_failures a (seconds times.cleanup) (a.failed_attempts j)
verify-other decode times a header ip form j n =
    (verify-Apart decode times a header ip form j n).entry

locked_settings :
    (a : AuthManager) (now : ℕ) (ip : List ℕ) → SameSettings a (is_locked_out a now ip).0
unfolding is_locked_out
locked_settings a now ip = elim (Option-cases (a.failed_attempts ip)) [
  | inl e ↦ rw (e, is_locked_out) (same_settings a)
  | inr (f, e) ↦ elim (Bool-cases (is_over a now f)) [
    | inl over ↦
        rw (e, is_locked_out)
          (rw over (record {
            username = refl;
            password = refl;
            max_attempts = refl;
            lockout_period_sec = refl;
          }))
    | inr held ↦ rw (e, is_locked_out) (rw held (same_settings a))
  ]
]

right_credentials :
    (b : AuthManager) (now : ℕ) (ip : List ℕ) (form : Bool) (c : Option (List ℕ × List ℕ))
    → ((check_credentials b now ip form c).answer ≡ true) ↔ (c ≡ some (b.username, b.password))
unfolding check_credentials record_failure record_success
right_credentials b now ip form none = (λ e. cc e, λ e. cc e)
right_credentials b now ip form (some (user, pass)) = (sound, complete)
  where
    sound :
        (check_credentials b now ip form (some (user, pass))).answer ≡ true
        → ◌≡◌ {A = Option (List ℕ × List ℕ)} (some (user, pass)) (some (b.username, b.password))
    sound e = elim (Bool-cases (bytes_eq user b.username && bytes_eq pass b.password)) [
      | inl right ↦
          let u = bytes_eq_sound user b.username (ground arith) in
          let p = bytes_eq_sound pass b.password (ground arith) in cc (u, p)
      | inr wrong ↦ absurd (ground (arith, wrong, e))
    ]

    complete :
        ◌≡◌ {A = Option (List ℕ × List ℕ)} (some (user, pass)) (some (b.username, b.password))
        → (check_credentials b now ip form (some (user, pass))).answer ≡ true
    complete e =
        let u : user ≡ b.username = cc e in
        let p : pass ≡ b.password = cc e in
        rw (u, p, bytes_eq_refl b.username, bytes_eq_refl b.password) refl

-- The three tests of a check, one after the other.
pub verify_steps :
    (decode : List ℕ → Decoded) (times : Times) (a : AuthManager) (header ip : List ℕ) (form : Bool)
    → ((verify decode times a header ip form).answer ≡ true) ↔ (
        ((is_locked_out (cleanup_expired a (seconds times.cleanup)) (seconds times.lockout) ip).1
          ≡ false)
        × (counts_as_failed_attempt header ≡ true)
        × (credentials decode header ≡ some (a.username, a.password)))
unfolding verify cleanup_expired
verify_steps decode times a header ip form =
    let start = cleanup_expired a (seconds times.cleanup) in
    let b = is_locked_out start (seconds times.lockout) ip in
    let same = locked_settings start (seconds times.lockout) ip in
    let c = right_credentials b.0 (seconds times.failure) ip form (credentials decode header) in
    let agree : ◌≡◌ {A = Option (List ℕ × List ℕ)} (some (b.0.username, b.0.password))
        (some (a.username, a.password)) =
      ap₂ (λ u p. some (u, p)) same.username same.password in
    elim (Bool-cases b.1) [
      | inl locked ↦ rw locked (λ e. absurd (cc e), λ e. absurd (cc e.0))
      | inr free ↦ elim (Bool-cases (counts_as_failed_attempt header)) [
        | inl counts ↦
            rw (free, counts) (λ e. (refl, refl, c.0 e ∙ agree), λ e. c.1 (e.2 ∙ sym agree))
        | inr bare ↦ rw (free, bare) (λ e. absurd (cc e), λ e. absurd (cc e.1))
      ]
    ]
