-- ===== src/Admin/SignIn.antt =====
-- What signing in guarantees: who is let in, what a token is worth, and for how long.
use ultimate_bbsbox.Prelude.{
  ℕ, ◌+◌, String, Bool, true, false, ◌≡◌, refl, Option, none, some, get_or, ◌&&◌, arith, ltb,
  Bool-cases, inl, inr, ◌==◌, eq_refl, if◌then◌else◌,
}
use ultimate_bbsbox.Prelude.Dict.{Dict, lookup, insert, lookup-insert}
use ultimate_bbsbox.Admin.Throttle.{retry_after}
use ultimate_bbsbox.Admin.Accounts.{
  Role, User, WebSession, SessionStore, disable, disabled_in, authenticate, admitted,
  authenticate_with, create_session, get_session, Desk, login, judged, let_in, source_of,
}

-- A user who was disabled is refused, with every password, and every other user is treated as before.
pub authenticate-disable :
    (verify : String → String → Bool) (username other password : String) (users after : Dict User)
    → disable username users ≡ some after
    → authenticate verify other password after
      ≡ (if username == other then none else authenticate verify other password users)
unfolding disable authenticate
authenticate-disable verify username other password users after h = found (lookup username users) h
  where
    found :
        (o : Option User)
        → disabled_in username users o ≡ some after
        → admitted verify password (lookup other after)
          ≡ (if username == other then none else admitted verify password (lookup other users))
    found none e = cc
    found (some u) e =
        let refused : User = record u { enabled = some false } in
        let same : insert username refused users ≡ after = cc in
        rw (← same) (
          rw (lookup-insert username other refused users) (elim (Bool-cases (username == other)) [
            | inl mine ↦ rw mine refl
            | inr theirs ↦ rw theirs refl
          ]))

-- A session is worth its token from its creation to the end of its lifetime, and nothing after it.
pub get_session-create_session :
    (now later : ℕ) (token csrf username : String) (role : Role) (store : SessionStore)
    → (get_session later token (create_session now token csrf username role store)).0 ≡ (
        if ltb (now + store.lifetime) later
        then none
        else some (record {
          username = username;
          role = role;
          csrf = csrf;
          expires = now + store.lifetime;
        }))
unfolding get_session create_session
get_session-create_session now later token csrf username role store =
    rw (lookup-insert token token _ store.items, eq_refl token)
      (elim (Bool-cases (ltb (now + store.lifetime) later)) [
        | inl late ↦ rw late refl
        | inr fresh ↦ rw fresh refl
      ])

module _ (verify : String → String → Bool) (tried failed created : ℕ)
    (token csrf username remote answer : String) where
  session_for : Desk → Role → WebSession
  session_for d role = record {
    username = username;
    role = role;
    csrf = csrf;
    expires = created + d.sessions.lifetime;
  }

  -- The user of a name, who is enabled and whose hash the password fits.
  abbrev IsUser : String → Option (Dict User) → User → Type 0
  IsUser password users u =
      (known : Dict User) × (users ≡ some known)
      × (lookup username known ≡ some u)
      × (get_or u.enabled true ≡ true)
      × (verify password (get_or u.hash "") ≡ true)

  found-admitted :
      (password : String) (known : Dict User) (o : Option User) (u : User)
      → lookup username known ≡ o
      → admitted verify password o ≡ some u
      → IsUser password (some known) u
  found-admitted password known none u l h = cc
  found-admitted password known (some v) u l h =
      tested (get_or v.enabled true) refl (verify password (get_or v.hash "")) refl (h)
    where
      tested :
          (e : Bool)
          → get_or v.enabled true ≡ e
          → (p : Bool) → verify password (get_or v.hash "") ≡ p
          → (if e && p then some v else none) ≡ some u
          → IsUser password (some known) u
      tested false e p q h = cc
      tested true e false q h = cc
      tested true e true q h =
          let same : v ≡ u = cc in
          let own : IsUser password (some known) v = (known, refl, l, e, q) in rw same at own

  authenticate-IsUser :
      (password : String) (users : Option (Dict User)) (u : User)
      → authenticate_with verify tried failed created username password users ≡ some u
      → IsUser password users u
  unfolding authenticate_with authenticate
  authenticate-IsUser password none u h = cc
  authenticate-IsUser password (some known) u h =
      found-admitted password known (lookup username known) u refl h

  judged-admitted :
      (d : Desk) (o : Option User)
      → (judged verify tried failed created token csrf username remote d o).0 ≡ some answer
      → (u : User) × (o ≡ some u)
        × (lookup answer
              (judged verify tried failed created token csrf username remote d o).1.sessions.items
            ≡ some (session_for d u.role))
  unfolding create_session session_for
  judged-admitted d none h = cc
  judged-admitted d (some u) h =
      let same : token ≡ answer = cc in
      (u, refl, rw (← same) (rw (lookup-insert token token _ d.sessions.items, eq_refl token) refl))

  let_in-admitted :
      (password : String) (d : Desk) (b : Bool)
      → (let_in verify tried failed created token csrf username password remote d b).0 ≡ some answer
      → (u : User) × IsUser password d.users u
        × (b ≡ false)
        × (lookup answer
              (let_in verify tried failed created token csrf username password remote d
                b).1.sessions.items
            ≡ some (session_for d u.role))
  let_in-admitted password d true h = cc
  let_in-admitted password d false h =
      let (u, found, stored) =
        judged-admitted d (authenticate_with verify tried failed created username password d.users)
          h in
      (u, authenticate-IsUser password d.users u found, refl, stored)

ltb_zero : (n : ℕ) → ltb 0 n ≡ false → n ≡ 0
ltb_zero n h = ground arith

-- A login is answered with a token only if the throttle lets it try, and there is a user of that name
-- who is enabled and whose hash the password fits; the token is then worth a session of that user and
-- role. The clock is read when the login is tried and when the session is made.
pub login-admitted :
    (verify : String → String → Bool) (tried failed created : ℕ)
    (token csrf username password remote answer : String) (d : Desk)
    → (login verify tried failed created token csrf username password remote d).0 ≡ some answer
    → (known : Dict User) × (u : User) × (d.users ≡ some known)
      × (lookup username known ≡ some u)
      × (get_or u.enabled true ≡ true)
      × (verify password (get_or u.hash "") ≡ true)
      × ((retry_after tried username (source_of remote) d.throttle).0 ≡ 0)
      × (lookup answer
            (login verify tried failed created token csrf username password remote
              d).1.sessions.items
          ≡ some (record {
            username = username;
            role = u.role;
            csrf = csrf;
            expires = created + d.sessions.lifetime;
          }))
unfolding login session_for
login-admitted verify tried failed created token csrf username password remote answer d h =
    let (wait, t) = retry_after tried username (source_of remote) d.throttle in
    let (u, (known, users, found, enabled, fits), free, stored) =
      let_in-admitted verify tried failed created token csrf username remote answer password
        (record d { throttle = t }) (ltb 0 wait) h in
    (known, u, users, found, enabled, fits, ltb_zero wait free, stored)
