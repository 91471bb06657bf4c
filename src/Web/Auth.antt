-- ===== src/Web/Auth.antt =====
-- src/web/AuthManager.h and AuthManager.cpp, with src/core/AuthAttemptPolicy.h: the check of the
-- credentials of a request and the lockout of a client that guesses. The lines that it writes to
-- the authorisation log are events of its result.
pub mod Headers
pub mod Checks
pub mod Accepts
pub mod Lockout
pub mod Guesses
pub mod Examples
use dhcpserver.Base.{
  ℕ, ◌+◌, ◌-◌, ◌/◌, ◌%◌, Bool, true, false, ◌&&◌, ◌||◌, List, [], ◌∷◌, ◌++◌, Option, none, some,
  ltb, leb, ◌==◌, if◌then◌else◌, length, take, drop, bytes_eq, u32_mod,
}
use dhcpserver.Dhcp.Server.Packet.{load_bytes}

pub record FailedEntry : Type 0 where
  pub count : ℕ
  pub first_attempt_time : ℕ

-- The map failedAttempts_ is a function from the text of a client's address.
pub record AuthManager : Type 0 where
  pub username : List ℕ
  pub password : List ℕ
  pub max_attempts : ℕ
  pub lockout_period_sec : ℕ
  pub config_loaded : Bool
  pub failed_attempts : List ℕ → Option FailedEntry

abbrev pub admin : List ℕ
admin = b'a' ∷ b'd' ∷ b'm' ∷ b'i' ∷ b'n' ∷ []

unfoldable pub init : AuthManager
init = record {
  username = admin;
  password = admin;
  max_attempts = 5;
  lockout_period_sec = 300;
  config_loaded = false;
  failed_attempts = λ ip. none;
}

-- The part of core::SecurityConfig that is read.
pub record SecurityConfig : Type 0 where
  pub username : List ℕ
  pub password : List ℕ
  pub max_attempts : ℕ
  pub lockout_period_sec : ℕ

unfoldable pub reload_config : SecurityConfig → AuthManager → AuthManager
reload_config sec a = record {
  username = sec.username;
  password = sec.password;
  max_attempts = sec.max_attempts;
  lockout_period_sec = sec.lockout_period_sec;
  config_loaded = true;
  failed_attempts = a.failed_attempts;
}

unfoldable pub ensure_config_loaded : SecurityConfig → AuthManager → AuthManager
ensure_config_loaded sec a = if a.config_loaded then a else reload_config sec a

-- What mbedtls_base64_decode leaves: decodedLen, and the memory from `decoded` on, as far as the
-- length says. A decode that fails with a length writes nothing, and the source then reads what its
-- stack holds; the decoder is a parameter of each check, so that the memory may differ from check to
-- check.
pub record Decoded : Type 0 where
  pub decoded_len : ℕ
  pub decoded : ℕ → ℕ

-- esp_timer_get_time in the three functions that ask it, in microseconds.
pub record Times : Type 0 where
  pub cleanup : ℕ
  pub lockout : ℕ
  pub failure : ℕ

-- getCurrentTimeSec
abbrev pub seconds : ℕ → ℕ
seconds us = us / 1000000 % u32_mod

-- now - firstAttemptTime > lockoutPeriodSec_, in uint32_t.
unfoldable pub is_over : AuthManager → ℕ → FailedEntry → Bool
is_over a now e = ltb a.lockout_period_sec ((now + u32_mod - e.first_attempt_time) % u32_mod)

unfoldable pub erase_failures : List ℕ → (List ℕ → Option FailedEntry) → List ℕ → Option FailedEntry
erase_failures ip failed j = if bytes_eq j ip then none else failed j

unfoldable pub put_failures :
    List ℕ → FailedEntry → (List ℕ → Option FailedEntry) → List ℕ → Option FailedEntry
put_failures ip e failed j = if bytes_eq j ip then some e else failed j

-- What the loop of cleanupExpired leaves of one client.
unfoldable pub kept_failures : AuthManager → ℕ → Option FailedEntry → Option FailedEntry
kept_failures a now none = none
kept_failures a now (some e) = if is_over a now e then none else some e

unfoldable pub cleanup_expired : AuthManager → ℕ → AuthManager
cleanup_expired a now = record a {
  failed_attempts = λ ip. kept_failures a now (a.failed_attempts ip);
}

-- isLockedOut: the manager after it, since the map is mutable, and the answer.
unfoldable pub is_locked_out : AuthManager → ℕ → List ℕ → AuthManager × Bool
is_locked_out a now ip = elim (a.failed_attempts ip) [
  | none ↦ (a, false)
  | some e ↦
      if is_over a now e
      then (record a { failed_attempts = erase_failures ip a.failed_attempts }, false)
      else (a, leb a.max_attempts e.count)
]

-- "Basic "
abbrev pub basic_prefix : List ℕ
basic_prefix = b'B' ∷ b'a' ∷ b's' ∷ b'i' ∷ b'c' ∷ b' ' ∷ []

-- core::countsAsFailedAttempt
unfoldable pub counts_as_failed_attempt : List ℕ → Bool
counts_as_failed_attempt header =
    if leb (length header) 6 then false else bytes_eq (take 6 header) basic_prefix

pub data AuthEvent : Type 0 where
  failed_attempt : List ℕ → ℕ → ℕ → AuthEvent
  lockout_event : List ℕ → ℕ → AuthEvent
  login : List ℕ → ℕ → AuthEvent

-- What a check leaves: the manager, the answer, and the events for the log.
pub record Verdict : Type 0 where
  pub manager : AuthManager
  pub answer : Bool
  pub events : List AuthEvent

abbrev pub no_failures : FailedEntry
no_failures = record { count = 0; first_attempt_time = 0 }

-- The entry after one more failure.
unfoldable pub failed_again : FailedEntry → ℕ → FailedEntry
failed_again e now = record {
  count = (e.count + 1) % u32_mod;
  first_attempt_time = if e.count == 0 then now else e.first_attempt_time;
}

unfoldable pub failures_of : AuthManager → List ℕ → FailedEntry
failures_of a ip = elim (a.failed_attempts ip) [ none ↦ no_failures | some e ↦ e ]

-- recordFailure, and the `return false` that follows each call of it.
unfoldable pub record_failure : AuthManager → ℕ → List ℕ → Verdict
record_failure a now ip =
    let e = failed_again (failures_of a ip) now in
    record {
      manager = record a { failed_attempts = put_failures ip e a.failed_attempts };
      answer = false;
      events =
          failed_attempt ip e.count a.max_attempts
          ∷ (if leb a.max_attempts e.count then lockout_event ip a.lockout_period_sec ∷ [] else []);
    }

-- The text before the first colon and the text behind it.
unfoldable pub split_colon : List ℕ → Option (List ℕ × List ℕ)
split_colon [] = none
split_colon (c ∷ cs) =
    if c == b':'
    then some ([], cs)
    else elim (split_colon cs) [ none ↦ none | some (user, pass) ↦ some (c ∷ user, pass) ]

-- The credentials in a header that counts as an attempt, none where they have no colon.
unfoldable pub credentials : (List ℕ → Decoded) → List ℕ → Option (List ℕ × List ℕ)
credentials decode header =
    let d = decode (drop 6 header) in
    if d.decoded_len == 0 then none else split_colon (load_bytes d.decoded 0 d.decoded_len)

-- core::authLogWritesSuccess
unfoldable pub auth_log_writes_success : Bool → ℕ → Bool
auth_log_writes_success from_login_form failed_before = from_login_form || ltb 0 failed_before

unfoldable pub record_success : AuthManager → List ℕ → Bool → Verdict
record_success a ip from_login_form =
    let failed_before = (failures_of a ip).count in
    record {
      manager = record a { failed_attempts = erase_failures ip a.failed_attempts };
      answer = true;
      events =
          (if auth_log_writes_success from_login_form failed_before
            then login ip failed_before ∷ []
            else []);
    }

-- The end of verify, from the credentials.
unfoldable pub check_credentials :
    AuthManager → ℕ → List ℕ → Bool → Option (List ℕ × List ℕ) → Verdict
check_credentials a now ip from_login_form none = record_failure a now ip
check_credentials a now ip from_login_form (some (user, pass)) =
    if bytes_eq user a.username && bytes_eq pass a.password
    then record_success a ip from_login_form
    else record_failure a now ip

unfoldable pub verify : (List ℕ → Decoded) → Times → AuthManager → List ℕ → List ℕ → Bool → Verdict
verify decode times a header ip from_login_form =
    let (b, locked) =
      is_locked_out (cleanup_expired a (seconds times.cleanup)) (seconds times.lockout) ip in
    if locked
    then record { manager = b; answer = false; events = [] }
    else if counts_as_failed_attempt header
    then check_credentials b (seconds times.failure) ip from_login_form (credentials decode header)
    else record { manager = b; answer = false; events = [] }

unfoldable pub authenticate : (List ℕ → Decoded) → Times → AuthManager → List ℕ → List ℕ → Verdict
authenticate decode times a header ip = verify decode times a header ip false

unfoldable pub authenticate_login :
    (List ℕ → Decoded) → Times → AuthManager → List ℕ → List ℕ → Verdict
authenticate_login decode times a header ip = verify decode times a header ip true
