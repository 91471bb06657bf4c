-- ===== src/Web/Auth/Lockout.antt =====
-- The lockout of AuthManager over a sequence of requests of many clients.
use dhcpserver.Base.{
  ℕ, ◌≤◌, ◌≡◌, ◌≢◌, refl, ap, ◌∙◌, Bool, true, false, List, [], ◌∷◌, some, leb, arith,
}
use dhcpserver.Web.Auth.{
  FailedEntry, AuthManager, Decoded, Times, Verdict, seconds, is_over, kept_failures,
  cleanup_expired, is_locked_out, verify,
}
use dhcpserver.Web.Auth.Checks.{SameSettings, verify-Apart}

-- A request: its header, its client, whether it comes from the login form, the clock, and what the
-- base64 decoder leaves of a text.
pub record Request : Type 0 where
  pub header : List ℕ
  pub ip : List ℕ
  pub from_login_form : Bool
  pub times : Times
  pub decode : List ℕ → Decoded

-- The check of one request.
abbrev pub check : AuthManager → Request → Verdict
check a r = verify r.decode r.times a r.header r.ip r.from_login_form

-- The manager after a sequence of requests.
unfoldable pub after : AuthManager → List Request → AuthManager
after a [] = a
after a (r ∷ rs) = after (check a r).manager rs

-- Every reading of the clock in the sequence lies within the period of the entry.
unfoldable pub Within : AuthManager → FailedEntry → List Request → Type 0
Within a e [] = Unit {0}
Within a e (r ∷ rs) =
    (is_over a (seconds r.times.cleanup) e ≡ false)
    × (is_over a (seconds r.times.lockout) e ≡ false)
    × Within a e rs

-- Every request of the client is refused.
pub AllRefused : List ℕ → AuthManager → List Request → Type 0
AllRefused ip a [] = Unit {0}
AllRefused ip a (r ∷ rs) =
    (r.ip ≡ ip → (check a r).answer ≡ false) × AllRefused ip (check a r).manager rs

-- The manager `a` with the settings of `start` and the entry `e` for a client.
pub record Tracked (start : AuthManager) (ip : List ℕ) (e : FailedEntry) (a : AuthManager)
    : Type 0 where
  pub settings : SameSettings start a
  pub entry : a.failed_attempts ip ≡ some e

over_alike :
    (start a : AuthManager) (now : ℕ) (e : FailedEntry)
    → SameSettings start a
    → is_over start now e ≡ false
    → is_over a now e ≡ false
unfolding is_over
over_alike start a now e s h = rw s.lockout_period_sec h

pub Tracked-cleanup :
    (start a : AuthManager) (now : ℕ) (ip : List ℕ) (e : FailedEntry)
    → Tracked start ip e a
    → is_over start now e ≡ false
    → Tracked start ip e (cleanup_expired a now)
unfolding cleanup_expired kept_failures
Tracked-cleanup start a now ip e t h = record {
  settings = record {
    username = t.settings.username;
    password = t.settings.password;
    max_attempts = t.settings.max_attempts;
    lockout_period_sec = t.settings.lockout_period_sec;
  };
  entry = rw (t.entry, kept_failures) (rw (over_alike start a now e t.settings h) refl);
}

-- Within the period the lockout is decided by the count alone, and nothing is forgotten.
pub locked_by_count :
    (start a : AuthManager) (now : ℕ) (ip : List ℕ) (e : FailedEntry)
    → Tracked start ip e a
    → is_over start now e ≡ false
    → is_locked_out a now ip ≡ (a, leb start.max_attempts e.count)
unfolding is_locked_out
locked_by_count start a now ip e t h =
    rw (t.entry, is_locked_out)
      (rw (over_alike start a now e t.settings h)
        (ap (λ m. (a, leb m e.count)) t.settings.max_attempts))

pub Tracked-other :
    (start a : AuthManager) (r : Request) (ip : List ℕ) (e : FailedEntry)
    → ip ≢ r.ip
    → Tracked start ip e a
    → is_over start (seconds r.times.cleanup) e ≡ false
    → Tracked start ip e (check a r).manager
unfolding kept_failures
Tracked-other start a r ip e n t h =
    let p = verify-Apart r.decode r.times a r.header r.ip r.from_login_form ip n in
    record {
      settings = record {
        username = p.settings.username ∙ t.settings.username;
        password = p.settings.password ∙ t.settings.password;
        max_attempts = p.settings.max_attempts ∙ t.settings.max_attempts;
        lockout_period_sec = p.settings.lockout_period_sec ∙ t.settings.lockout_period_sec;
      };
      entry =
          p.entry
          ∙ ap (kept_failures a (seconds r.times.cleanup)) t.entry
          ∙ (rw (over_alike start a (seconds r.times.cleanup) e t.settings h) refl);
    }

pub locked_check :
    (start a : AuthManager) (r : Request) (e : FailedEntry)
    → Tracked start r.ip e a
    → start.max_attempts ≤ e.count
    → is_over start (seconds r.times.cleanup) e ≡ false
    → is_over start (seconds r.times.lockout) e ≡ false
    → check a r ≡ record {
      manager = cleanup_expired a (seconds r.times.cleanup);
      answer = false;
      events = [];
    }
unfolding verify
locked_check start a r e t full h k =
    let c =
      locked_by_count start (cleanup_expired a (seconds r.times.cleanup)) (seconds r.times.lockout)
        r.ip e (Tracked-cleanup start a (seconds r.times.cleanup) r.ip e t h) k in
    let yes_locked : leb start.max_attempts e.count ≡ true = ground arith in rw (c, yes_locked) refl
