-- ===== src/Server/Sessions.antt =====
-- backend/src/server/console_session.hpp and console_session.cpp: the sessions of the console. The random
-- token and the time, in seconds, are arguments.
pub mod Laws
use mono_bucket.Base.{
  ℕ, suc, ◌+◌, String, Bool, true, false, Option, none, some, List, [], ◌∷◌, leb, if◌then◌else◌,
  str_eq, Dict, lookup, insert, erase,
}
use mono_bucket.Core.Identity.{Role, BucketGrants, Permission, allows}

pub record Principal : Type 0 where
  pub username : String
  pub role : Role
  pub buckets : BucketGrants

-- Principal::may
unfoldable pub may : Principal → String → Permission → Bool
may p bucket permission = allows p.role p.buckets bucket permission

pub record Session : Type 0 where
  pub principal : Principal
  pub expires_at : ℕ

pub record SessionStore : Type 0 where
  pub sessions : Dict Session
  pub ttl_seconds : ℕ

-- kSessionTtlSeconds
abbrev pub session_ttl_seconds : ℕ
session_ttl_seconds = 43200

-- The loop of `sweep`.
unfoldable pub swept : ℕ → Dict Session → Dict Session
swept at [] = []
swept at ((token, s) ∷ sessions) =
    let rest = swept at sessions in if leb s.expires_at at then rest else (token, s) ∷ rest

-- sessions_.emplace
abbrev pub emplaced : String → Session → Option Session → Dict Session → Dict Session
emplaced token s none sessions = insert token s sessions
emplaced token s (some old) sessions = sessions

unfoldable pub open_at : String → Principal → ℕ → SessionStore → SessionStore
unfolding swept
open_at token principal at store =
    let kept = swept at store.sessions in
    record store {
      sessions =
          emplaced token (record { principal = principal; expires_at = at + store.ttl_seconds })
            (lookup token kept) kept;
    }

abbrev pub live_principal : ℕ → Option Session → Option Principal
live_principal at none = none
live_principal at (some s) = if leb s.expires_at at then none else some s.principal

unfoldable pub resolve_at : String → ℕ → SessionStore → Option Principal
resolve_at token at store =
    if str_eq token "" then none else live_principal at (lookup token store.sessions)

unfoldable pub close_session : String → SessionStore → SessionStore
close_session token store = record store { sessions = erase token store.sessions }

-- The loop of `closeUser`, with the number of sessions that were closed.
abbrev pub closed_one : ℕ × Dict Session → ℕ × Dict Session
closed_one (closed, sessions) = (suc closed, sessions)

abbrev pub kept_one : String × Session → ℕ × Dict Session → ℕ × Dict Session
kept_one entry (closed, sessions) = (closed, entry ∷ sessions)

unfoldable pub close_each : String → Dict Session → ℕ × Dict Session
close_each username [] = (0, [])
close_each username ((token, s) ∷ sessions) =
    let rest = close_each username sessions in
    if str_eq s.principal.username username then closed_one rest else kept_one (token, s) rest

unfoldable pub close_user : String → SessionStore → ℕ × SessionStore
unfolding close_each
close_user username store =
    if str_eq username ""
    then (0, store)
    else let closed = close_each username store.sessions in
      (closed.0, record store { sessions = closed.1 })
