-- ===== src/Auth/RateLimit/Bucket.antt =====
-- The global limit is a token bucket.
use gopanel.Common.{ℕ, suc, ◌+◌, ◌*◌, ◌-◌, ◌≤◌, ◌≡◌, true, List, [], ◌∷◌, arith, if◌then◌else◌}
use gopanel.Common.Int.{pos_part, neg_part, ◌+ℤ◌}
use gopanel.Auth.RateLimit.{LoginLimiter, second, global_burst, new_login_limiter, allow_global}

-- Calls at the given times: the limiter after them, and how many were allowed.
unfoldable pub allow_all : LoginLimiter → List ℕ → LoginLimiter × ℕ
allow_all limiter [] = (limiter, 0)
allow_all limiter (now ∷ later) =
    let (next, allowed) = allow_global limiter now in
    let (final, count) = allow_all next later in (final, if allowed then suc count else count)

-- The times do not go back, and end at the last argument.
abbrev pub Ascending : ℕ → List ℕ → ℕ → Type 0
Ascending from [] until = from ≤ until
Ascending from (t ∷ ts) until = (from ≤ t) × Ascending t ts until

Ascending-le : (from : ℕ) (times : List ℕ) (until : ℕ) → Ascending from times until → from ≤ until
Ascending-le from [] until h = h
Ascending-le from (t ∷ ts) until (first, h) = omega (arith, Ascending-le t ts until h)

pub record IsFilled (limiter : LoginLimiter) : Type 0 where
  pub owed : neg_part limiter.tokens ≡ 0
  pub capped : pos_part limiter.tokens ≤ global_burst

allow_global-spends :
    (limiter : LoginLimiter) (now : ℕ)
    → IsFilled limiter
    → limiter.last ≤ now
    → IsFilled (allow_global limiter now).0
      × ((allow_global limiter now).0.last ≡ now)
      × ((if (allow_global limiter now).1 then second else 0)
            + pos_part (allow_global limiter now).0.tokens
          ≤ pos_part limiter.tokens + (now - limiter.last))
unfolding allow_global ◌+ℤ◌
allow_global-spends limiter now h ascending = ground arith

allow_all-spends :
    (limiter : LoginLimiter) (times : List ℕ) (until : ℕ)
    → IsFilled limiter
    → Ascending limiter.last times until
    → (allow_all limiter times).1 * second + pos_part (allow_all limiter times).0.tokens
      ≤ pos_part limiter.tokens + (until - limiter.last)
unfolding allow_all
allow_all-spends limiter [] until h order = omega arith
allow_all-spends limiter (now ∷ later) until h (first, order) =
    let (filled, clock, spent) = allow_global-spends limiter now h first in
    ground (
      arith,
      allow_all-spends (allow_global limiter now).0 later until filled (rw clock order),
      Ascending-le now later until order,
    )

-- From a bucket that holds at most the burst, which every call leaves it, any calls within a period
-- allow at most 20 sign-ins and one more for each second of the period.
pub allow_all-le :
    (limiter : LoginLimiter) (times : List ℕ) (until : ℕ)
    → IsFilled limiter
    → Ascending limiter.last times until
    → (allow_all limiter times).1 * second ≤ global_burst + (until - limiter.last)
allow_all-le limiter times until h order =
    omega (arith, allow_all-spends limiter times until h order, h.capped)

-- A second after the last call, a sign-in is allowed.
pub allow_global_after_second :
    (limiter : LoginLimiter) (now : ℕ)
    → IsFilled limiter
    → limiter.last + second ≤ now
    → (allow_global limiter now).1 ≡ true
unfolding allow_global ◌+ℤ◌
allow_global_after_second limiter now h later = ground arith

-- The bucket is filled at the start, and a call at a time that does not go back keeps it so.
pub allow_global-IsFilled :
    (start : ℕ) (limiter : LoginLimiter) (now : ℕ)
    → IsFilled limiter
    → limiter.last ≤ now
    → IsFilled (new_login_limiter start) × IsFilled (allow_global limiter now).0
unfolding new_login_limiter
allow_global-IsFilled start limiter now h order =
    (omega arith, (allow_global-spends limiter now h order).0)
