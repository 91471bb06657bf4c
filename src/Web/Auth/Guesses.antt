-- ===== src/Web/Auth/Guesses.antt =====
-- How AuthManager counts the wrong guesses of a client within the lockout period.
use dhcpserver.Base.{ℕ, ◌+◌, ◌≡◌, List, [], ◌∷◌, ltb, bytes_eq, if◌then◌else◌}
use dhcpserver.Web.Auth.{FailedEntry, AuthManager}
use dhcpserver.Web.Auth.Accepts.{Presents}
use dhcpserver.Web.Auth.Headers.{is_attempt}
use dhcpserver.Web.Auth.Lockout.{Request}

-- 1 when a header presents credentials: "Basic " and a byte at least.
abbrev pub spent : List ℕ → ℕ
spent header = if is_attempt header then 1 else 0

-- How many requests of the client present credentials.
unfoldable pub guesses : List ℕ → List Request → ℕ
guesses ip [] = 0
guesses ip (r ∷ rs) = (if bytes_eq r.ip ip then spent r.header else 0) + guesses ip rs

-- No request of the client presents the configured user name and password.
unfoldable pub AllWrong : AuthManager → List ℕ → List Request → Type 0
AllWrong start ip [] = Unit {0}
AllWrong start ip (r ∷ rs) = (r.ip ≡ ip → ¬ Presents r.decode start r.header) × AllWrong start ip rs

abbrev pub least : ℕ → ℕ → ℕ
least m n = if ltb n m then n else m

-- The entry with another count.
abbrev pub counted : FailedEntry → ℕ → FailedEntry
counted e n = record { count = n; first_attempt_time = e.first_attempt_time }
