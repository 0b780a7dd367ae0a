-- ===== src/Server/Sessions/Laws.antt =====
-- backend/src/server/console_session.cpp: what a token resolves to.
use mono_bucket.Base.{
  ℕ, ◌+◌, ◌≡◌, refl, inl, inr, String, false, Option, none, some, List, [], ◌∷◌, leb, if◌then◌else◌,
  str_eq, eq_iff, Dict, lookup, insert, erase, lookup-insert, All, arith, Bool-cases,
}
use mono_bucket.Server.Sessions.{
  Principal, Session, SessionStore, swept, emplaced, open_at, live_principal, resolve_at,
  close_session, close_each, close_user,
}

-- What changes the store.
pub data SessionChange : Type 0 where
  opened : (token : String) (principal : Principal) (at : ℕ) → SessionChange
  closed : (token : String) → SessionChange
  closed_user : (username : String) → SessionChange

unfoldable pub change : SessionChange → SessionStore → SessionStore
unfolding open_at close_session close_user
change (opened token principal at) s = open_at token principal at s
change (closed token) s = close_session token s
change (closed_user username) s = (close_user username s).1

unfoldable pub changes : List SessionChange → SessionStore → SessionStore
unfolding change
changes [] s = s
changes (c ∷ cs) s = changes cs (change c s)

-- No session is the user's, and no change opens one.
abbrev pub IsOthers : String → Dict Session → Type 0
IsOthers user = All (λ entry. str_eq entry.1.principal.username user ≡ false)

abbrev pub IsOther : String → SessionChange → Type 0
IsOther user (opened token principal at) = str_eq principal.username user ≡ false
IsOther user (closed token) = Unit
IsOther user (closed_user username) = Unit

swept-IsOthers :
    (user : String) (at : ℕ) (d : Dict Session) → IsOthers user d → IsOthers user (swept at d)
unfolding swept
swept-IsOthers user at [] h = tt
swept-IsOthers user at ((token, s) ∷ d) (h, hs) = elim (Bool-cases (leb s.expires_at at)) [
  | inl t ↦ rw t (swept-IsOthers user at d hs)
  | inr f ↦ rw f (h, swept-IsOthers user at d hs)
]

insert-IsOthers :
    (user token : String) (s : Session) (d : Dict Session)
    → str_eq s.principal.username user ≡ false
    → IsOthers user d
    → IsOthers user (insert token s d)
unfolding insert
insert-IsOthers user token s [] p h = (p, tt)
insert-IsOthers user token s ((k, v) ∷ d) p (h, hs) = elim (Bool-cases (str_eq k token)) [
  | inl t ↦ rw t (p, hs)
  | inr f ↦ rw f (h, insert-IsOthers user token s d p hs)
]

erase-IsOthers :
    (user token : String) (d : Dict Session) → IsOthers user d → IsOthers user (erase token d)
unfolding erase
erase-IsOthers user token [] h = tt
erase-IsOthers user token ((k, v) ∷ d) (h, hs) = elim (Bool-cases (str_eq k token)) [
  | inl t ↦ rw t (erase-IsOthers user token d hs)
  | inr f ↦ rw f (h, erase-IsOthers user token d hs)
]

close_each-IsOthers :
    (user username : String) (d : Dict Session)
    → IsOthers user d
    → IsOthers user (close_each username d).1
unfolding close_each
close_each-IsOthers user username [] h = tt
close_each-IsOthers user username ((k, v) ∷ d) (h, hs) =
    elim (Bool-cases (str_eq v.principal.username username)) [
      | inl t ↦ rw t (close_each-IsOthers user username d hs)
      | inr f ↦ rw f (h, close_each-IsOthers user username d hs)
    ]

-- Closing a user's sessions leaves none of that user.
close_each-closes : (user : String) (d : Dict Session) → IsOthers user (close_each user d).1
unfolding close_each
close_each-closes user [] = tt
close_each-closes user ((k, v) ∷ d) = elim (Bool-cases (str_eq v.principal.username user)) [
  | inl t ↦ rw t (close_each-closes user d)
  | inr f ↦ rw f (f, close_each-closes user d)
]

change-IsOthers :
    (user : String) (c : SessionChange) (s : SessionStore)
    → IsOther user c
    → IsOthers user s.sessions
    → IsOthers user (change c s).sessions
unfolding change open_at close_session close_user
change-IsOthers user (opened token principal at) s o h =
    go (lookup token (swept at s.sessions)) (swept-IsOthers user at s.sessions h)
  where
    new : Session
    new = record { principal = principal; expires_at = at + s.ttl_seconds }

    go :
        (found : Option Session)
        → IsOthers user (swept at s.sessions)
        → IsOthers user (emplaced token new found (swept at s.sessions))
    go none h = insert-IsOthers user token new (swept at s.sessions) o h
    go (some old) h = h
change-IsOthers user (closed token) s o h = erase-IsOthers user token s.sessions h
change-IsOthers user (closed_user username) s o h = elim (Bool-cases (str_eq username "")) [
  | inl t ↦ rw (t, change, close_user) h
  | inr f ↦ rw (f, change, close_user) (close_each-IsOthers user username s.sessions h)
]

changes-IsOthers :
    (user : String) (cs : List SessionChange) (s : SessionStore)
    → All (IsOther user) cs
    → IsOthers user s.sessions
    → IsOthers user (changes cs s).sessions
unfolding changes
changes-IsOthers user [] s o h = h
changes-IsOthers user (c ∷ cs) s (o, os) h =
    changes-IsOthers user cs (change c s) os (change-IsOthers user c s o h)

lookup-other :
    (user token : String) (d : Dict Session) (s : Session)
    → IsOthers user d
    → lookup token d ≡ some s
    → str_eq s.principal.username user ≡ false
unfolding lookup
lookup-other user token [] s h e = absurd (grind arith)
lookup-other user token ((k, v) ∷ d) s (h, hs) e = elim (Bool-cases (str_eq k token)) [
  | inl t ↦ grind arith
  | inr f ↦ lookup-other user token d s hs (grind arith)
]

-- After the sessions of a user with a name were closed, and until a session is opened for that user, no
-- token resolves to the user at any time, whatever other sessions are opened and closed.
pub resolve_at-close_user :
    (user token : String) (at : ℕ) (store : SessionStore) (cs : List SessionChange) (p : Principal)
    → str_eq user "" ≡ false
    → All (IsOther user) cs
    → resolve_at token at (changes cs (close_user user store).1) ≡ some p
    → str_eq p.username user ≡ false
unfolding resolve_at close_user
resolve_at-close_user user token at store cs p named others h =
    let s = (close_user user store).1 in
    let none_left : IsOthers user s.sessions = rw named (close_each-closes user store.sessions) in
    let kept = changes-IsOthers user cs s others none_left in
    elim (Bool-cases (str_eq token "")) [
      | inl t ↦ absurd (grind arith)
      | inr f ↦ go (lookup token (changes cs s).sessions) refl kept (rw f at h)
    ]
  where
    store' : SessionStore
    store' = changes cs (close_user user store).1

    go :
        (found : Option Session)
        → lookup token store'.sessions ≡ found
        → IsOthers user store'.sessions
        → live_principal at found ≡ some p
        → str_eq p.username user ≡ false
    go none e k h = absurd (grind arith)
    go (some s) e k h =
        let other = lookup-other user token store'.sessions s k e in
        elim (Bool-cases (leb s.expires_at at)) [
          | inl t ↦ absurd (grind arith)
          | inr f ↦ grind arith
        ]

lookup-swept :
    (token : String) (at : ℕ) (d : Dict Session)
    → lookup token d ≡ none
    → lookup token (swept at d) ≡ none
unfolding lookup swept
lookup-swept token at [] h = refl
lookup-swept token at ((k, v) ∷ d) h = ground (arith, lookup-swept token at d)

-- A token that no session has is opened for a principal: it resolves to the principal until the time to
-- live_principal is over, and to nobody from then on.
pub resolve_at-open_at :
    (token : String) (p : Principal) (opened_at at : ℕ) (store : SessionStore)
    → str_eq token "" ≡ false
    → lookup token store.sessions ≡ none
    → resolve_at token at (open_at token p opened_at store)
      ≡ (if leb (opened_at + store.ttl_seconds) at then none else some p)
unfolding resolve_at open_at
resolve_at-open_at token p opened_at at store named fresh =
    let s : Session = record { principal = p; expires_at = opened_at + store.ttl_seconds } in
    let cold = lookup-swept token opened_at store.sessions fresh in
    let found : lookup token (insert token s (swept opened_at store.sessions)) ≡ some s =
      grind
        (arith, lookup-insert token token s (swept opened_at store.sessions), eq_iff token token) in
    rw (named, cold, found) refl
