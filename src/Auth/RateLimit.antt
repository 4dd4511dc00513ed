-- ===== src/Auth/RateLimit.antt =====
-- internal/auth/rate_limit.go. A time is in nanoseconds since Go's zero time, so 0 is `time.Time{}`.
-- The tokens are counted in billionths, exactly, where the code has a float64 of whole tokens.
pub mod Accounts
pub mod Bucket
use gopanel.Common.{
  ℕ, ◌+◌, ◌*◌, Bool, true, false, not, List, [], Option, none, some, Bytes, ltb, leb, ◌&&◌, ◌||◌,
  length, if◌then◌else◌,
}
use gopanel.Common.Int.{ℤ, pos, negsuc, sub_ℕ, ◌+ℤ◌, ltℤ}
use gopanel.Common.Assoc.{lookup, insert, remove, keep_if}

abbrev pub second : ℕ
second = 1_000_000_000

abbrev pub max_account_entries : ℕ
max_account_entries = 1024

abbrev pub account_attempts : ℕ
account_attempts = 5

abbrev pub account_window : ℕ
account_window = 60 * second

abbrev pub global_burst : ℕ
global_burst = 20 * second

pub record AccountLimit : Type 0 where
  pub count : ℕ
  pub reset : ℕ

-- The clock is an argument of the methods; the mutex makes each of them one step.
pub record LoginLimiter : Type 0 where
  pub accounts : List (Bytes × AccountLimit)
  pub tokens : ℤ
  pub last : ℕ

unfoldable pub new_login_limiter : ℕ → LoginLimiter
new_login_limiter now = record { accounts = []; tokens = pos global_burst; last = now }

unfoldable pub refill : LoginLimiter → ℕ → LoginLimiter
refill limiter now =
    let tokens = limiter.tokens +ℤ sub_ℕ now limiter.last in
    record limiter {
      tokens = if ltℤ (pos global_burst) tokens then pos global_burst else tokens;
      last = now;
    }

unfoldable pub allow_global : LoginLimiter → ℕ → LoginLimiter × Bool
unfolding refill
allow_global limiter now =
    let filled = refill limiter now in
    if ltℤ filled.tokens (pos second)
    then (filled, false)
    else (record filled { tokens = filled.tokens +ℤ sub_ℕ 0 second }, true)

unfoldable pub evict_expired : LoginLimiter → ℕ → LoginLimiter
evict_expired limiter now = record limiter {
  accounts = keep_if (λ value. not (ltb value.reset now)) limiter.accounts;
}

-- A missing entry reads as the zero value.
abbrev pub entry_or_zero : Option AccountLimit → AccountLimit
entry_or_zero none = record { count = 0; reset = 0 }
entry_or_zero (some entry) = entry

abbrev pub exists : Option AccountLimit → Bool
exists none = false
exists (some _) = true

abbrev pub renew : AccountLimit → ℕ → AccountLimit
renew entry now =
    if ltb entry.reset now then record { count = 0; reset = now + account_window } else entry

-- `AllowAccount` behind the look at the swept table, and what it found there.
unfoldable pub count_attempt : LoginLimiter → Bytes → ℕ → Option AccountLimit → LoginLimiter × Bool
count_attempt swept email now found =
    if not (exists found) && leb max_account_entries (length swept.accounts)
    then (swept, false)
    else let entry = renew (entry_or_zero found) now in
      if leb account_attempts entry.count then (swept, false) else (
        record swept {
          accounts = insert email (record entry { count = entry.count + 1 }) swept.accounts;
        },
        true,
      )

unfoldable pub allow_account : LoginLimiter → Bytes → ℕ → LoginLimiter × Bool
unfolding evict_expired count_attempt
allow_account limiter email now =
    let swept = evict_expired limiter now in
    count_attempt swept email now (lookup email swept.accounts)

unfoldable pub reset : LoginLimiter → Bytes → LoginLimiter
reset limiter email = record limiter { accounts = remove email limiter.accounts }
