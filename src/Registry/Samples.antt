-- ===== src/Registry/Samples.antt =====
-- Manifests for the tests and the witnesses: a board and a shell behind it.
use mathlib.Core.Path.{subst}
use ultimate_bbsbox.Prelude.{
  ◌*◌, Bool, ap, get_or, ◌==◌, if◌then◌else◌, true, false, ◌≡◌, refl, Option, none, some, List, [],
  ◌∷◌, elem,
}
use ultimate_bbsbox.Prelude.Dict.{lookup, insert}
use ultimate_bbsbox.Prelude.Exec.{ok}
use ultimate_bbsbox.Registry.Models.{
  Lifecycle, Service, Endpoint, Integration, Job, on_demand, multiuser, always, second,
}
use ultimate_bbsbox.Registry.Queries.{Registry, endpoint_types, Resolution, resolve}
use ultimate_bbsbox.Registry.Loader.{
  Manifest, services, endpoints, integrations, service_doc, endpoint_doc, integration_doc, load_all,
  create, validated, validate_references, for_each, check_service, check_integration, load_registry,
}
use ultimate_bbsbox.Registry.References.{
  IsSupported, here, there, load_registry-via, resolve-total, load_registry-IsListed,
}

abbrev pub shared_lifecycle : Lifecycle
shared_lifecycle = record {
  mode = on_demand;
  sharing = multiuser;
  idle_timeout = some (300 * second);
  startup_timeout = some (30 * second);
  readiness = none;
  restart = some always;
  max_restarts = some 2;
  restart_window = none;
  restart_backoff = none;
}

abbrev pub backup_job : Job
backup_job = record {
  name = "backup";
  schedule = "every 1d";
  action = "backup";
  wake_if_stopped = none;
  shutdown_after = none;
}

abbrev pub board : Service
board = record {
  id = "mystic-main";
  kind = "bbs";
  title = "Mystic";
  endpoint_id = "mystic-tcp";
  integration_id = some "mystic-linux";
  exposure = record { main_menu = true; via_bbs = none; admin_only = none };
  direct_allowed = none;
  lifecycle = shared_lifecycle;
  jobs = backup_job ∷ [];
}

abbrev pub shell : Service
shell = record {
  id = "unix-v7-shell";
  kind = "shell";
  title = "Unix V7";
  endpoint_id = "mystic-tcp";
  integration_id = none;
  exposure = record { main_menu = false; via_bbs = some ("mystic-main" ∷ []); admin_only = none };
  direct_allowed = none;
  lifecycle = shared_lifecycle;
  jobs = [];
}

abbrev pub tcp_endpoint : Endpoint
tcp_endpoint = record {
  id = "mystic-tcp";
  kind = "tcp";
  host = some "127.0.0.1";
  connect_timeout = none;
}

abbrev pub mystic_linux : Integration
mystic_linux = record { id = "mystic-linux"; runtime = "native"; target = "mystic-main" }

abbrev listed : Service → Manifest
listed s = record { document = service_doc s; directory = services; valid = true }

abbrev manifests : List Manifest
manifests =
    record { document = endpoint_doc tcp_endpoint; directory = endpoints; valid = true }
    ∷ record { document = integration_doc mystic_linux; directory = integrations; valid = true }
    ∷ listed shell
    ∷ listed board
    ∷ []

abbrev pub registry : Registry
registry = record {
  services = ("mystic-main", board) ∷ ("unix-v7-shell", shell) ∷ [];
  endpoints = ("mystic-tcp", tcp_endpoint) ∷ [];
  integrations = ("mystic-linux", mystic_linux) ∷ [];
}

loads : load_registry manifests ≡ ok registry
unfolding load_registry load_all create validated validate_references for_each check_service
    check_integration insert lookup
loads = refl

only_tcp :
    (b : Bool) (e : Endpoint)
    → (if b then some tcp_endpoint else none) ≡ some e
    → elem e.kind endpoint_types ≡ true
only_tcp true e f =
    subst (λ (x : Endpoint). elem x.kind endpoint_types ≡ true)
      (ap (λ (o : Option Endpoint). get_or o e) f) refl
only_tcp false e f = cc

registry-IsSupported : IsSupported registry
unfolding lookup
registry-IsSupported k e f = only_tcp ("mystic-tcp" == k) e f

load_registry-via_example :
    (bbs : Service) × (lookup "mystic-main" registry.services ≡ some bbs) × (bbs.kind ≡ "bbs")
unfolding lookup
load_registry-via_example =
    load_registry-via manifests registry "unix-v7-shell" shell "mystic-main" loads refl refl

resolve-total_example :
    (d : Resolution) × (resolve registry "unix-v7-shell" ≡ ok d) × (d.service ≡ shell)
unfolding lookup
resolve-total_example =
    resolve-total manifests registry "unix-v7-shell" shell loads refl registry-IsSupported

load_registry-IsListed_example : lookup "mystic-main" registry.services ≡ some board
load_registry-IsListed_example =
    load_registry-IsListed manifests (listed board) registry board loads
      (there (there (there here))) refl
