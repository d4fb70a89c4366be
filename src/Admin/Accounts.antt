-- ===== src/Admin/Accounts.antt =====
-- `AuthStore`, `SessionStore` of `scripts/ubb_admin/auth.py` and `login` of `scripts/ubb_dashboard.py`.
-- Hashing is not the program's own: checking a password against a stored hash is an argument,
-- `verify`, and so are new tokens. The store's file is the mapping of users that it holds.
use ultimate_bbsbox.Prelude.{
  ℕ, ◌+◌, String, Bool, true, false, ◌&&◌, Option, none, some, get_or, ltb, ◌==◌, if◌then◌else◌,
}
use ultimate_bbsbox.Prelude.Dict.{Dict, lookup, insert, erase}
use ultimate_bbsbox.Admin.Throttle.{LoginThrottle, retry_after, failure, success}

pub data Role : Type 0 where
  viewer operator administrator : Role

pub record User : Type 0 where
  pub hash : Option String
  pub role : Role
  pub display_name : String
  pub enabled : Option Bool

pub record WebSession : Type 0 where
  pub username : String
  pub role : Role
  pub csrf : String
  pub expires : ℕ

pub record SessionStore : Type 0 where
  pub items : Dict WebSession
  pub lifetime : ℕ

-- What is checked for a name that nobody has, so that it takes as long.
abbrev pub dummy_hash : String
dummy_hash = "pbkdf2_sha256$240000$ZHVtbXlzYWx0MTIzNDU2Nzg5MA==$ZHVtbXl2YWx1ZQ=="

unfoldable pub add_user : String → String → Role → Dict User → Dict User
add_user username hashed role users =
    insert username
      (record { hash = some hashed; role = role; display_name = username; enabled = some true })
      users

abbrev pub disabled_in : String → Dict User → Option User → Option (Dict User)
disabled_in username users none = none
disabled_in username users (some u) =
    some (insert username (record u { enabled = some false }) users)

-- `disable`, where none is the KeyError
unfoldable pub disable : String → Dict User → Option (Dict User)
disable username users = disabled_in username users (lookup username users)

module _ (verify : String → String → Bool) where
  abbrev pub admitted : String → Option User → Option User
  admitted password none = none
  admitted password (some u) =
      let valid = verify password (get_or u.hash "") in
      if get_or u.enabled true && valid then some u else none

  -- The name that nobody has is refused whatever `verify` answers on the dummy hash.
  unfoldable pub authenticate : String → String → Dict User → Option User
  authenticate username password users = admitted password (lookup username users)

-- `create`: the session of a new token
unfoldable pub create_session : ℕ → String → String → String → Role → SessionStore → SessionStore
create_session now token csrf username role store = record store {
  items =
      insert token
        (record { username = username; role = role; csrf = csrf; expires = now + store.lifetime })
        store.items;
}

unfoldable pub remove_session : String → SessionStore → SessionStore
remove_session token store = record store { items = erase token store.items }

abbrev pub current :
    ℕ → String → SessionStore → Option WebSession → Option WebSession × SessionStore
current now token store none = (none, remove_session token store)
current now token store (some s) =
    if ltb s.expires now then (none, remove_session token store) else (some s, store)

-- `get`: the session, unless it has expired, when it is forgotten
unfoldable pub get_session : ℕ → String → SessionStore → Option WebSession × SessionStore
get_session now token store = current now token store (lookup token store.items)

-- The administration's state: the accounts, the sessions and the throttle.
pub record Desk : Type 0 where
  -- `self.auth`, where none is None
  pub users : Option (Dict User)
  pub sessions : SessionStore
  pub throttle : LoginThrottle

abbrev pub source_of : String → String
source_of remote = if remote == "" then "unknown" else remote

-- The clock is read by the throttle when the login is tried, again when it has failed, and by the
-- store of sessions when it has not: three times.
module _ (verify : String → String → Bool) (tried failed created : ℕ) where
  abbrev pub judged : String → String → String → String → Desk → Option User → Option String × Desk
  judged token csrf username remote d none =
      (none, record d { throttle = (failure failed username (source_of remote) d.throttle).1 })
  judged token csrf username remote d (some u) = (
    some token,
    record d {
      throttle = success username (source_of remote) d.throttle;
      sessions = create_session created token csrf username u.role d.sessions;
    },
  )

  -- `self.auth.authenticate(user,password) if self.auth else None`
  unfoldable pub authenticate_with : String → String → Option (Dict User) → Option User
  authenticate_with username password none = none
  authenticate_with username password (some users) = authenticate verify username password users

  abbrev pub let_in :
      String → String → String → String → String → Desk → Bool → Option String × Desk
  let_in token csrf username password remote d true = (none, d)
  let_in token csrf username password remote d false =
      judged token csrf username remote d (authenticate_with username password d.users)

  -- `DashboardApp.login`, with the new session's token and CSRF token given
  unfoldable pub login : String → String → String → String → String → Desk → Option String × Desk
  login token csrf username password remote d =
      let (wait, t) = retry_after tried username (source_of remote) d.throttle in
      let_in token csrf username password remote (record d { throttle = t }) (ltb 0 wait)
