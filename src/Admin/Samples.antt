-- ===== src/Admin/Samples.antt =====
-- An administration desk with one operator, for the tests and the witnesses.
use ultimate_bbsbox.Prelude.{
  ◌≤◌, String, Bool, true, false, get_or, ◌≡◌, refl, none, some, [], ◌==◌, length,
}
use ultimate_bbsbox.Prelude.Dict.{Dict, lookup, insert}
use ultimate_bbsbox.Admin.Throttle.{
  LoginThrottle, retry_after, failure, cleanup, evict, entry_of, noted, delay_for, delay_of,
  seconds_left,
}
use ultimate_bbsbox.Admin.Limits.{length-failure-le}
use ultimate_bbsbox.Admin.Accounts.{
  authenticate_with, operator, User, SessionStore, disable, authenticate, add_user, create_session,
  get_session, Desk, login,
}
use ultimate_bbsbox.Admin.SignIn.{authenticate-disable, get_session-create_session, login-admitted}

abbrev check : String → String → Bool
check password hashed = password == hashed

abbrev throttle : LoginThrottle
throttle = record { max_entries = 2; entries = [] }

abbrev users : Dict User
users = add_user "sysop" "secret" operator []

abbrev store : SessionStore
store = record { items = []; lifetime = 100 }

abbrev desk : Desk
desk = record { users = some users; sessions = store; throttle = throttle }

-- three failures go before, at once
abbrev tried : LoginThrottle
tried = (failure 7 "sysop" "lan" (failure 7 "sysop" "lan" (failure 7 "sysop" "lan" throttle).1).1).1

length-failure-le_example : length (failure 7 "sysop" "lan" tried).1.entries ≤ 2
unfolding failure
length-failure-le_example = length-failure-le 7 "sysop" "lan" tried

tried-free : (retry_after 1007 "sysop" "lan" tried).0 ≡ 0
unfolding retry_after failure cleanup evict entry_of noted delay_for delay_of seconds_left
tried-free = refl

-- the fourth is delayed by 5 seconds, and half a millisecond before they are over no second is left
fourth : (failure 1007 "sysop" "lan" (retry_after 1007 "sysop" "lan" tried).1).0 ≡ 5
unfolding retry_after failure cleanup evict entry_of noted delay_for delay_of seconds_left
fourth = refl

abbrev retired : Dict User
retired =
    insert "sysop"
      (record {
        hash = some "secret";
        role = operator;
        display_name = "sysop";
        enabled = some false;
      })
      users

disables : disable "sysop" users ≡ some retired
unfolding disable add_user lookup insert
disables = refl

authenticate-disable_example : authenticate check "sysop" "secret" retired ≡ none
authenticate-disable_example =
    authenticate-disable check "sysop" "sysop" "secret" users retired disables

get_session-create_session_example :
    (get_session 101 "t" (create_session 0 "t" "c" "sysop" operator store)).0 ≡ none
get_session-create_session_example = get_session-create_session 0 101 "t" "c" "sysop" operator store

logs_in : (login check 0 1 2 "t" "c" "sysop" "secret" "" desk).0 ≡ some "t"
unfolding login authenticate_with authenticate add_user lookup insert retry_after cleanup evict
    entry_of seconds_left
logs_in = refl

login-admitted_example :
    (known : Dict User) × (u : User) × (some users ≡ some known)
    × (lookup "sysop" known ≡ some u)
    × (get_or u.enabled true ≡ true)
    × (check "secret" (get_or u.hash "") ≡ true)
    × ((retry_after 0 "sysop" "unknown" throttle).0 ≡ 0)
    × (lookup "t" (login check 0 1 2 "t" "c" "sysop" "secret" "" desk).1.sessions.items
        ≡ some (record { username = "sysop"; role = u.role; csrf = "c"; expires = 102 }))
login-admitted_example = login-admitted check 0 1 2 "t" "c" "sysop" "secret" "" "t" desk logs_in
