-- ===== src/Monitoring/Samples.antt =====
-- A board that fails and recovers, for the tests and the witnesses.
use ultimate_bbsbox.Prelude.{
  ◌≤◌, String, true, false, ◌≡◌, refl, none, some, [], ◌∷◌, length, keep_if, arith,
}
use ultimate_bbsbox.Prelude.Dict.{Dict, lookup, insert, contains}
use ultimate_bbsbox.Prelude.Exec.{err, modify, pure, raise_if, ◌>>=◌}
use ultimate_bbsbox.Errors.{value_error}
use ultimate_bbsbox.Monitoring.Alerts.{
  Observed, Snapshot, Alert, observe, observe_all, observe_hosts, conditions, raise_all, settle_all,
  is_cleared, retain, evaluate, at_least_ten,
}
use ultimate_bbsbox.Monitoring.Retention.{evaluate-retention}
use ultimate_bbsbox.Monitoring.Current.{IsRaised}
use ultimate_bbsbox.Monitoring.Evaluated.{evaluate-IsRaised}
use ultimate_bbsbox.Monitoring.Storage.{
  Thresholds, storage_health, grade, critical, Heartbeat, heartbeat_ingest, is_host,
  storage_health-grade,
}

abbrev board : String → Observed
board health = record {
  service_name = "bbs";
  health = health;
  backup = some "yesterday";
  readiness = "READY";
}

abbrev failing : Snapshot
failing = record { observations = board "UNHEALTHY" ∷ []; hosts = [] }

abbrev fine : Snapshot
fine = record { observations = board "HEALTHY" ∷ []; hosts = [] }

first : Dict Alert
first = evaluate 20 100 failing []

second : Dict Alert
second = evaluate 20 200 failing first

recovered : Dict Alert
recovered = evaluate 20 300 fine second

abbrev unhealthy : Alert
unhealthy = record {
  condition = record {
    severity = "critical";
    service_id = some "bbs";
    host_id = none;
    summary = "service health is unhealthy";
  };
  alert_id = "health:bbs";
  is_raised = true;
  first_seen = 100;
  last_seen = 200;
  occurrence_count = 2;
  cleared_at = none;
}

second-counts : second ≡ ("health:bbs", unhealthy) ∷ []
unfolding first second evaluate retain conditions observe observe_all observe_hosts raise_all
    settle_all lookup insert
second-counts = refl

recovered-clears :
    recovered ≡ ("health:bbs", record unhealthy { is_raised = false; cleared_at = some 300 }) ∷ []
unfolding first second recovered evaluate retain conditions observe observe_all observe_hosts
    raise_all settle_all lookup insert
recovered-clears = refl

evaluate-retention_example : length (keep_if is_cleared recovered) ≤ at_least_ten 20
unfolding recovered
evaluate-retention_example = evaluate-retention 20 300 fine second

evaluate-IsRaised_example :
    (contains "health:bbs" (conditions failing) ≡ true
      → (a : Alert) × (lookup "health:bbs" second ≡ some a)
        × IsRaised 200 (lookup "health:bbs" first) a)
    × ((a : Alert)
        → lookup "health:bbs" second ≡ some a
        → a.is_raised ≡ contains "health:bbs" (conditions failing))
unfolding second
evaluate-IsRaised_example = evaluate-IsRaised 20 200 failing first "health:bbs"

abbrev thresholds : Thresholds
thresholds = record {
  warning_percent = 15;
  critical_percent = 5;
  warning_bytes = 100;
  critical_bytes = 20;
}

nearly_full : storage_health thresholds 1000 30 ≡ critical
unfolding storage_health
nearly_full = refl

storage_health-grade_example :
    grade (storage_health thresholds 1000 300) ≤ grade (storage_health thresholds 1000 30)
storage_health-grade_example = storage_health-grade thresholds 1000 30 300 (omega arith)

abbrev beat : Heartbeat
beat = record {
  fields = "schema_version" ∷ "host_id" ∷ "observed_at" ∷ "health" ∷ [];
  schema_version = 1;
  host = "amiga-1";
  health = "HEALTHY";
  metrics = [];
  observed_at = 1000;
}

from_the_future : heartbeat_ingest 300 600 beat [] ≡ (err value_error, [])
unfolding heartbeat_ingest is_host raise_if modify pure ◌>>=◌
from_the_future = refl
