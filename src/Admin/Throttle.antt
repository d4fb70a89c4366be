-- ===== src/Admin/Throttle.antt =====
-- `LoginThrottle` of `scripts/ubb_admin/auth.py`: failed logins by user and by source, oldest first.
-- The clock counts microseconds, and its reading is an argument.
use ultimate_bbsbox.Prelude.{
  ℕ, ◌+◌, ◌-◌, ◌*◌, ◌/◌, ◌^◌, min, max, String, Bool, false, not, ◌&&◌, Option, none, some, List,
  [], ◌∷◌, ◌++◌, length, keep_if, ltb, leb, ◌==◌, if◌then◌else◌,
}

pub data Key : Type 0 where
  user source : String → Key

abbrev pub is_key : Key → Key → Bool
is_key (user a) (user b) = a == b
is_key (source a) (source b) = a == b
is_key _ _ = false

pub record Entry : Type 0 where
  pub key : Key
  pub failures : ℕ
  pub retry_at : ℕ

pub record LoginThrottle : Type 0 where
  pub max_entries : ℕ
  pub entries : List Entry

-- in seconds
unfoldable pub delay_of : ℕ → ℕ
delay_of failures = if ltb failures 4 then 0 else min 60 (5 * 2 ^ (failures - 4))

abbrev pub is_expired : ℕ → Entry → Bool
is_expired now e = leb 4 e.failures && leb e.retry_at now

-- `while len(self._entries) > self.max_entries: self._entries.popitem(last=False)`
unfoldable pub evict : ℕ → List Entry → List Entry
evict most [] = []
evict most (e ∷ es) = let rest = evict most es in if ltb most (length es + 1) then rest else e ∷ es

unfoldable pub cleanup : ℕ → ℕ → List Entry → List Entry
cleanup now most es = evict most (keep_if (λ e. not (is_expired now e)) es)

unfoldable pub entry_of : Key → List Entry → Option Entry
entry_of k [] = none
entry_of k (e ∷ es) = if is_key e.key k then some e else entry_of k es

abbrev pub retry_in : Option Entry → ℕ
retry_in none = 0
retry_in (some e) = e.retry_at

abbrev pub failures_in : Option Entry → ℕ
failures_in none = 0
failures_in (some e) = e.failures

-- `max(0, int(max(retry_times) - now + 0.999))` of the times in seconds: in the last
-- millisecond nothing is left
unfoldable pub seconds_left : ℕ → ℕ → ℕ
seconds_left now retry = (retry + 999000 - now) / 1000000

unfoldable pub retry_after : ℕ → String → String → LoginThrottle → ℕ × LoginThrottle
retry_after now username from t =
    let es = cleanup now t.max_entries t.entries in
    (
      seconds_left now
          (max (retry_in (entry_of (user username) es)) (retry_in (entry_of (source from) es))),
      record t { entries = es },
    )

-- The assignment and `move_to_end`: an entry of that key goes, and the new one comes last.
unfoldable pub noted : Key → ℕ → List Entry → List Entry
noted k now es =
    let failures = failures_in (entry_of k es) + 1 in
    keep_if (λ e. not (is_key e.key k)) es
    ++ record { key = k; failures = failures; retry_at = now + 1000000 * delay_of failures } ∷ []

-- the delay that a failure of the key brings
unfoldable pub delay_for : Key → List Entry → ℕ
delay_for k es = delay_of (failures_in (entry_of k es) + 1)

unfoldable pub failure : ℕ → String → String → LoginThrottle → ℕ × LoginThrottle
failure now username from t =
    let es = cleanup now t.max_entries t.entries in
    let es' = noted (user username) now es in
    (
      max (delay_for (user username) es) (delay_for (source from) es'),
      record t { entries = cleanup now t.max_entries (noted (source from) now es') },
    )

unfoldable pub success : String → String → LoginThrottle → LoginThrottle
success username from t = record t {
  entries =
      keep_if (λ e. not (is_key e.key (source from)))
        (keep_if (λ e. not (is_key e.key (user username))) t.entries);
}
