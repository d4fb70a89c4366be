-- ===== src/Registry/Models.antt =====
-- `scripts/ubb_registry/models.py`: the manifests. A field that the schema leaves optional is an
-- `Option`; its default stands where the code reads it. Times are in microseconds.
use ultimate_bbsbox.Prelude.{
  ℕ, String, Bool, true, ◌&&◌, ◌||◌, Option, none, some, List, ◌==◌, if◌then◌else◌,
}

pub data Mode : Type 0 where
  on_demand always_on : Mode

pub data Sharing : Type 0 where
  single_session multiuser : Sharing

pub data RestartPolicy : Type 0 where
  never on_failure always : RestartPolicy

pub data Readiness : Type 0 where
  immediate process_alive driver_specific : Readiness
  command_probe : List String → Readiness

abbrev pub second : ℕ
second = 1000000

pub record Lifecycle : Type 0 where
  pub mode : Mode
  pub sharing : Sharing
  pub idle_timeout : Option ℕ
  pub startup_timeout : Option ℕ
  pub readiness : Option Readiness
  pub restart : Option RestartPolicy
  pub max_restarts : Option ℕ
  pub restart_window : Option ℕ
  pub restart_backoff : Option ℕ

pub record Exposure : Type 0 where
  pub main_menu : Bool
  pub via_bbs : Option (List String)
  pub admin_only : Option Bool

-- A maintenance job of a service.
pub record Job : Type 0 where
  pub name : String
  pub schedule : String
  pub action : String
  pub wake_if_stopped : Option Bool
  pub shutdown_after : Option Bool

pub record Service : Type 0 where
  pub id : String
  pub kind : String
  pub title : String
  pub endpoint_id : String
  pub integration_id : Option String
  pub exposure : Exposure
  pub direct_allowed : Option Bool
  pub lifecycle : Lifecycle
  pub jobs : List Job

pub record Endpoint : Type 0 where
  pub id : String
  pub kind : String
  pub host : Option String
  pub connect_timeout : Option ℕ

pub record Integration : Type 0 where
  pub id : String
  pub runtime : String
  pub target : String

pub data Location : Type 0 where
  local remote : Location

-- The answer of `Endpoint.normalized`: the document with its type and location.
pub record Normalized : Type 0 where
  pub id : String
  pub kind : String
  pub host : Option String
  pub connect_timeout : Option ℕ
  pub location : Location

unfoldable pub is_local_host : Option String → Bool
is_local_host none = true
is_local_host (some h) = h == "localhost" || h == "127.0.0.1" || h == "::1"

unfoldable pub normalized : Endpoint → Normalized
unfolding is_local_host
normalized e = record {
  id = e.id;
  kind = if e.kind == "supervisor" then "remote_supervisor" else e.kind;
  host = e.host;
  connect_timeout = e.connect_timeout;
  location =
      if (e.kind == "local_process" || e.kind == "serial")
        || (e.kind == "tcp" || e.kind == "udp") && is_local_host e.host
      then local
      else remote;
}
