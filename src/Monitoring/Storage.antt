-- ===== src/Monitoring/Storage.antt =====
-- `scripts/ubb_monitoring/engine.py`: the health of a storage root, and what is accepted as a heartbeat.
-- A percentage is compared exactly, without the division of the source.
use ultimate_bbsbox.Prelude.{
  ℕ, ◌+◌, ◌*◌, ◌≤◌, String, Bool, false, not, ◌&&◌, ◌||◌, List, [], ◌∷◌, all, elem, leb, ltb,
  length, codes, is_upper, is_lower, is_digit, is_between, arith, if◌then◌else◌,
}
use ultimate_bbsbox.Prelude.Dict.{Dict, insert}
use ultimate_bbsbox.Prelude.Exec.{Exec, modify, pure, ◌>>◌, raise_if}
use ultimate_bbsbox.Errors.{Error, value_error}

pub record Thresholds : Type 0 where
  pub warning_percent : ℕ
  pub critical_percent : ℕ
  pub warning_bytes : ℕ
  pub critical_bytes : ℕ

pub data StorageHealth : Type 0 where
  healthy warning critical : StorageHealth

-- `(free/total*100) if total else 0`, at most `percent`
abbrev pub is_at_most : ℕ → ℕ → ℕ → Bool
is_at_most percent total free = leb total 0 || leb (free * 100) (percent * total)

unfoldable pub storage_health : Thresholds → ℕ → ℕ → StorageHealth
storage_health t total free =
    if is_at_most t.critical_percent total free || leb free t.critical_bytes
    then critical
    else (if is_at_most t.warning_percent total free || leb free t.warning_bytes
        then warning
        else healthy)

-- How bad it is.
abbrev pub grade : StorageHealth → ℕ
grade healthy = 0
grade warning = 1
grade critical = 2

-- The part of a heartbeat that is looked at; the names of all that it has.
pub record Heartbeat : Type 0 where
  pub fields : List String
  pub schema_version : ℕ
  pub host : String
  pub health : String
  pub metrics : List String
  pub observed_at : ℕ

abbrev heartbeat_fields : List String
heartbeat_fields =
    "schema_version" ∷ "host_id" ∷ "observed_at" ∷ "received_at" ∷ "health" ∷ "source" ∷ "summary"
    ∷ "metrics" ∷ []

abbrev heartbeat_metrics : List String
heartbeat_metrics =
    "load_1m" ∷ "disk_free_bytes" ∷ "uptime_seconds" ∷ "service_count" ∷ "running_service_count"
    ∷ []

abbrev is_host_start : ℕ → Bool
is_host_start c = is_upper c || is_lower c || is_digit c

abbrev pub is_host_char : ℕ → Bool
is_host_char c = is_host_start c || is_between 45 46 c || is_between 95 95 c

abbrev starts_host : List ℕ → Bool
starts_host [] = false
starts_host (c ∷ cs) = is_host_start c && all is_host_char cs && leb (length cs) 63

-- `[A-Za-z0-9][A-Za-z0-9_.-]{0,63}`
unfoldable pub is_host : String → Bool
is_host host = starts_host (codes host)

abbrev is_one : ℕ → Bool
is_one n = leb 1 n && leb n 1

-- `heartbeat_ingest`, of an engine with a directory: what is accepted is the host's last heartbeat. The
-- skew that is allowed is in the same unit as the times. Both times are what a wall clock shows, each
-- at its own offset: `now.replace(tzinfo=observed.tzinfo)` keeps what the clock shows and takes over
-- the offset of `observed`, so that the comparison is one of the readings.
unfoldable pub heartbeat_ingest : ℕ → ℕ → Heartbeat → Exec (Dict Heartbeat) Error Heartbeat
heartbeat_ingest skew now h = do
  raise_if (not (all (λ f. elem f heartbeat_fields) h.fields && is_one h.schema_version))
      value_error
  raise_if (not (is_host h.host)) value_error
  raise_if (not (elem h.health ("HEALTHY" ∷ "DEGRADED" ∷ "UNHEALTHY" ∷ []))) value_error
  raise_if (not (all (λ f. elem f heartbeat_metrics) h.metrics)) value_error
  raise_if (ltb (now + skew) h.observed_at) value_error
  modify (insert h.host h)
  pure h

-- With less free space on the same store its health is the same or worse.
pub storage_health-grade :
    (t : Thresholds) (total free more : ℕ)
    → free ≤ more
    → grade (storage_health t total more) ≤ grade (storage_health t total free)
unfolding storage_health
storage_health-grade t total free more h = ground arith
