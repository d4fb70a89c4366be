-- ===== src/Monitoring/Alerts.antt =====
-- `scripts/ubb_monitoring/engine.py`: the conditions of a snapshot and the life of an alert. A time is
-- a number of milliseconds, in place of its text. What is stored is the dictionary of alerts.
use ultimate_bbsbox.Prelude.{
  ℕ, zero, suc, ◌+◌, ◌-◌, String, Bool, true, false, not, Option, none, some, List, [], ◌∷◌, elem,
  leb, ltb, length, keep_if, ◌<>◌, ◌==◌, if◌then◌else◌,
}
use ultimate_bbsbox.Prelude.Dict.{Dict, lookup, insert, erase, contains}

-- the part of a service's observation that the engine reads
pub record Observed : Type 0 where
  pub service_name : String
  pub health : String
  pub backup : Option String
  pub readiness : String

pub record Host : Type 0 where
  pub host_name : String
  pub host_health : String

pub record Snapshot : Type 0 where
  pub observations : List Observed
  pub hosts : List Host

pub record Condition : Type 0 where
  pub severity : String
  pub service_id : Option String
  pub host_id : Option String
  pub summary : String

pub record Alert : Type 0 where
  pub condition : Condition
  pub alert_id : String
  pub is_raised : Bool
  pub first_seen : ℕ
  pub last_seen : ℕ
  pub occurrence_count : ℕ
  pub cleared_at : Option ℕ

abbrev condition_of : String → String → String → Condition
condition_of severity id summary = record {
  severity = severity;
  service_id = some id;
  host_id = none;
  summary = summary;
}

-- `if b: active[key] = condition`
abbrev note_if : Bool → String → Condition → Dict Condition → Dict Condition
note_if true key c d = insert key c d
note_if false key c d = d

abbrev is_none : Option String → Bool
is_none none = true
is_none (some _) = false

abbrev health_note : Observed → Dict Condition → Dict Condition
health_note o d =
    note_if (o.health == "UNHEALTHY") ("health:" <> o.service_name)
      (condition_of "critical" o.service_name "service health is unhealthy")
      (note_if (o.health == "DEGRADED") ("health:" <> o.service_name)
        (condition_of "warning" o.service_name "service health is degraded") d)

unfoldable pub observe : Observed → Dict Condition → Dict Condition
observe o d =
    note_if (elem o.readiness ("NOT_READY" ∷ "BLOCKED" ∷ [])) ("qualification:" <> o.service_name)
      (condition_of "warning" o.service_name ("qualification is " <> o.readiness))
      (note_if (is_none o.backup) ("backup:" <> o.service_name)
        (condition_of "warning" o.service_name "no backup evidence recorded") (health_note o d))

unfoldable pub observe_host : Host → Dict Condition → Dict Condition
observe_host h d =
    note_if (h.host_health == "UNKNOWN") ("host:" <> h.host_name)
      (record {
        severity = "warning";
        service_id = none;
        host_id = some h.host_name;
        summary = "remote host has no current telemetry";
      })
      d

unfoldable pub observe_all : List Observed → Dict Condition → Dict Condition
observe_all [] d = d
observe_all (o ∷ os) d = observe_all os (observe o d)

unfoldable pub observe_hosts : List Host → Dict Condition → Dict Condition
observe_hosts [] d = d
observe_hosts (h ∷ hs) d = observe_hosts hs (observe_host h d)

-- `active`: the conditions that hold
unfoldable pub conditions : Snapshot → Dict Condition
conditions s = observe_hosts s.hosts (observe_all s.observations [])

abbrev pub first_of : Option Alert → ℕ → ℕ
first_of none now = now
first_of (some prior) now = prior.first_seen

abbrev pub count_of : Option Alert → ℕ
count_of none = 0
count_of (some prior) = prior.occurrence_count

-- the record of a condition that holds now
abbrev pub raised : ℕ → String → Option Alert → Condition → Alert
raised now key prior c = record {
  condition = c;
  alert_id = key;
  is_raised = true;
  first_seen = first_of prior now;
  last_seen = now;
  occurrence_count = count_of prior + 1;
  cleared_at = none;
}

unfoldable pub raise_all : ℕ → Dict Alert → Dict Condition → Dict Alert → Dict Alert
raise_all now old [] records = records
raise_all now old ((key, c) ∷ cs) records =
    raise_all now old cs (insert key (raised now key (lookup key old) c) records)

abbrev cleared_if : Bool → ℕ → Alert → Alert
cleared_if true now prior = record prior { is_raised = false; cleared_at = some now }
cleared_if false now prior = prior

abbrev pub settled : ℕ → Alert → Alert
settled now prior = cleared_if prior.is_raised now prior

abbrev pub keep_settled : Bool → String → Alert → Dict Alert → Dict Alert
keep_settled true key prior records = records
keep_settled false key prior records = insert key prior records

unfoldable pub settle_all : ℕ → Dict Condition → Dict Alert → Dict Alert → Dict Alert
settle_all now active [] records = records
settle_all now active ((key, prior) ∷ old) records =
    settle_all now active old (keep_settled (contains key active) key (settled now prior) records)

abbrev pub is_cleared : String × Alert → Bool
is_cleared (_, a) = not a.is_raised

abbrev pub age : String × Alert → ℕ
age (_, a) = clearing a.cleared_at
  where
    clearing : Option ℕ → ℕ
    clearing none = 0
    clearing (some t) = t + 1

unfoldable pub insert_aged : String × Alert → Dict Alert → Dict Alert
insert_aged p [] = p ∷ []
insert_aged p (q ∷ qs) = if leb (age p) (age q) then p ∷ q ∷ qs else q ∷ insert_aged p qs

-- `sorted(cleared, key=…cleared_at…)`, which is stable
unfoldable pub oldest_first : Dict Alert → Dict Alert
oldest_first [] = []
oldest_first (p ∷ ps) = insert_aged p (oldest_first ps)

unfoldable pub take_first : ℕ → Dict Alert → Dict Alert
take_first zero ps = []
take_first (suc n) [] = []
take_first (suc n) (p ∷ ps) = p ∷ take_first n ps

unfoldable pub pop_all : Dict Alert → Dict Alert → Dict Alert
pop_all [] d = d
pop_all ((k, _) ∷ ps) d = pop_all ps (erase k d)

-- At most `retention` cleared alerts are kept, the ones cleared last.
unfoldable pub retain : ℕ → Dict Alert → Dict Alert
retain retention records =
    let cleared = keep_if is_cleared records in
    if ltb retention (length cleared)
    then pop_all (take_first (length cleared - retention) (oldest_first cleared)) records
    else records

-- `max(10,int(retention))`, of `__init__`
abbrev pub at_least_ten : ℕ → ℕ
at_least_ten n = if ltb n 10 then 10 else n

-- What `evaluate` saves and answers, of an engine that was made with this retention.
unfoldable pub evaluate : ℕ → ℕ → Snapshot → Dict Alert → Dict Alert
evaluate retention now snapshot old =
    retain (at_least_ten retention)
      (settle_all now (conditions snapshot) old (raise_all now old (conditions snapshot) []))
