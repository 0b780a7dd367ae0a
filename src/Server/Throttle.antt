-- ===== src/Server/Throttle.antt =====
-- backend/src/server/console_session.hpp and console_session.cpp: the limit on failed logins. The time,
-- in seconds, is an argument.
use mono_bucket.Base.{
  ap, ◌∙◌, le→leb, ℕ, suc, ◌+◌, ◌≤◌, ◌<◌, ◌≡◌, refl, Bool, true, false, List, [], ◌∷◌, leb,
  if◌then◌else◌, length, All, arith,
}

-- kMaxFailedLogins and kLoginWindowSeconds
abbrev pub max_failed_logins : ℕ
max_failed_logins = 10

abbrev pub login_window_seconds : ℕ
login_window_seconds = 60

pub record LoginThrottle : Type 0 where
  pub window_start : ℕ
  pub failures : ℕ

abbrev pub new_throttle : LoginThrottle
new_throttle = record { window_start = 0; failures = 0 }

unfoldable pub roll : ℕ → LoginThrottle → LoginThrottle
roll at t =
    if leb (t.window_start + login_window_seconds) at
    then record { window_start = at; failures = 0 }
    else t

unfoldable pub blocked_at : ℕ → LoginThrottle → Bool × LoginThrottle
unfolding roll
blocked_at at t = let rolled = roll at t in (leb max_failed_logins rolled.failures, rolled)

unfoldable pub record_failure_at : ℕ → LoginThrottle → LoginThrottle
unfolding roll
record_failure_at at t = let rolled = roll at t in record rolled { failures = rolled.failures + 1 }

unfoldable pub record_login : LoginThrottle → LoginThrottle
record_login t = record t { failures = 0 }

-- Failures at one time after the other.
unfoldable pub record_failures : List ℕ → LoginThrottle → LoginThrottle
unfolding record_failure_at
record_failures [] t = t
record_failures (at ∷ times) t = record_failures times (record_failure_at at t)

roll-within :
    (at : ℕ) (t : LoginThrottle) → at < t.window_start + login_window_seconds → roll at t ≡ t
unfolding roll
roll-within at t h =
    let early : leb (t.window_start + login_window_seconds) at ≡ false = ground arith in
    rw early refl

-- Failures within the window that is running.
record_failures-within :
    (times : List ℕ) (start n : ℕ)
    → All (λ at. at < start + login_window_seconds) times
    → record_failures times (record { window_start = start; failures = n })
      ≡ record { window_start = start; failures = n + length times }
unfolding record_failures record_failure_at
record_failures-within [] start n h =
    ap (λ k. record { window_start = start; failures = k }) (omega arith)
record_failures-within (at ∷ times) start n (h, hs) =
    ap (λ r. record_failures times (record r { failures = r.failures + 1 }))
      (roll-within at (record { window_start = start; failures = n }) h)
    ∙ record_failures-within times start (n + 1) hs
    ∙ ap (λ k. record { window_start = start; failures = k }) (omega arith)

-- A failure comes when the window is over, and others within the 60 seconds after it, with no login that
-- succeeds: an attempt within those seconds is blocked exactly where they are ten or more in all, and one
-- after those seconds is not blocked.
pub blocked_at-record_failures :
    (t : LoginThrottle) (first : ℕ) (times : List ℕ) (at : ℕ)
    → t.window_start + login_window_seconds ≤ first
    → All (λ time. time < first + login_window_seconds) times
    → ((blocked_at at (record_failures (first ∷ times) t)).0 ≡ (
        if leb (first + login_window_seconds) at
        then false
        else leb max_failed_logins (suc (length times))))
unfolding blocked_at record_failures record_failure_at roll
blocked_at-record_failures t first times at over within =
    let new : roll first t ≡ record { window_start = first; failures = 0 } =
      rw (le→leb (t.window_start + login_window_seconds) first over, roll) refl in
    let all : record_failures times (record_failure_at first t)
        ≡ record { window_start = first; failures = 1 + length times } =
      ap (λ r. record_failures times (record r { failures = r.failures + 1 })) new
      ∙ record_failures-within times first 1 within in
    ap (λ r. leb max_failed_logins (roll at r).failures) all
    ∙ last (leb (first + login_window_seconds) at)
  where
    last :
        (late : Bool)
        → let t : LoginThrottle =
            if late
            then record { window_start = at; failures = 0 }
            else record { window_start = first; failures = 1 + length times } in
          leb max_failed_logins t.failures
          ≡ (if late then false else leb max_failed_logins (suc (length times)))
    last true = refl
    last false = ap (λ n. leb max_failed_logins n) (omega arith)
