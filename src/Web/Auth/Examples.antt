-- ===== src/Web/Auth/Examples.antt =====
-- Checks of credentials at concrete requests.
use dhcpserver.Base.{
  ℕ, ◌*◌, ◌≡◌, ◌≢◌, ◌↔◌, refl, Bool, true, false, List, [], ◌∷◌, ◌++◌, Option, none, some, length,
  get_or, bytes_eq, if◌then◌else◌, ap,
}
use dhcpserver.Dhcp.Server.Packet.{load_bytes}
use dhcpserver.Web.Auth.{
  FailedEntry, AuthManager, Decoded, Times, is_over, cleanup_expired, is_locked_out, basic_prefix,
  kept_failures, check_credentials, record_success, auth_log_writes_success, failures_of,
  erase_failures, counts_as_failed_attempt, split_colon, credentials, verify, admin,
}
use dhcpserver.Web.Auth.Accepts.{Locked, Presents, verify_iff}
use dhcpserver.Web.Auth.Headers.{NoColon, is_attempt, behind}
use dhcpserver.Web.Auth.Lockout.{Request}
use dhcpserver.Web.Auth.Guesses.{guesses}

-- A decoder for texts that are written out.
abbrev plain : List ℕ → Decoded
plain text = record { decoded_len = length text; decoded = λ i. get_or text i 0 }

abbrev at_second : ℕ → Times
at_second s = record { cleanup = s * 1000000; lockout = s * 1000000; failure = s * 1000000 }

abbrev guest : List ℕ
guest = b'9' ∷ []

abbrev owner : List ℕ
owner = b'7' ∷ []

abbrev right_header : List ℕ
right_header = basic_prefix ++ (admin ++ (b':' ∷ admin))

abbrev wrong_header : List ℕ
wrong_header = basic_prefix ++ (admin ++ (b':' ∷ b'x' ∷ []))

abbrev request_of : List ℕ → List ℕ → ℕ → Request
request_of header ip s = record {
  header = header;
  ip = ip;
  from_login_form = false;
  times = at_second s;
  decode = plain;
}

-- A manager where the guest has failed before, at second 10.
abbrev failures : ℕ → FailedEntry
failures n = record { count = n; first_attempt_time = 10 }

abbrev guessed : ℕ → AuthManager
guessed n = record {
  username = admin;
  password = admin;
  max_attempts = 5;
  lockout_period_sec = 300;
  config_loaded = true;
  failed_attempts = λ ip. if bytes_eq ip guest then some (failures n) else none;
}

abbrev tries : List Request
tries =
    request_of wrong_header guest 20
    ∷ request_of [] guest 21
    ∷ request_of wrong_header owner 22
    ∷ request_of wrong_header guest 23
    ∷ []

abbrev late_right : List Request
late_right =
    request_of right_header guest 20
    ∷ request_of right_header owner 21
    ∷ request_of right_header guest 309
    ∷ []

abbrev wrong_pair : Option (List ℕ × List ℕ)
wrong_pair = some (admin, b'x' ∷ [])

abbrev has_password : Option (List ℕ × List ℕ) → Bool
has_password none = false
has_password (some (user, pass)) = bytes_eq pass admin

admin-NoColon : NoColon admin
unfolding NoColon
admin-NoColon = (λ e. cc e, (λ e. cc e, (λ e. cc e, (λ e. cc e, (λ e. cc e, tt)))))

tries_counted : guesses guest tries ≡ 2
unfolding guesses is_attempt behind bytes_eq
tries_counted = refl

owner_is_other : guest ≢ owner
unfolding bytes_eq
owner_is_other q =
    let same : ◌≡◌ {A = Bool} true false = ap (λ x. bytes_eq x guest) q in absurd (cc same)

-- A password with a colon, and the header that carries it.
abbrev colon_password : List ℕ
colon_password = b'a' ∷ b':' ∷ b'b' ∷ []

abbrev colon_header : List ℕ
colon_header = basic_prefix ++ (admin ++ (b':' ∷ colon_password))

abbrev colon_guarded : AuthManager
colon_guarded = record (guessed 3) { password = colon_password }

verify_iff_example :
    ((verify plain (at_second 20) colon_guarded colon_header guest true).answer ≡ true)
    ↔ ((¬ Locked colon_guarded (at_second 20) guest) × Presents plain colon_guarded colon_header)
verify_iff_example =
    verify_iff plain (at_second 20) colon_guarded colon_header guest true admin-NoColon

-- The check of the password with a colon.
colon_accepted : (verify plain (at_second 20) colon_guarded colon_header guest true).answer ≡ true
unfolding verify cleanup_expired kept_failures is_locked_out is_over counts_as_failed_attempt
    check_credentials credentials split_colon load_bytes record_success auth_log_writes_success
    failures_of erase_failures bytes_eq
colon_accepted = refl
