-- ===== src/Registry/Loader.antt =====
-- `scripts/ubb_registry/loader.py`: from the manifests of the three directories to a `Registry`.
-- The files arrive in path order, each already parsed, with what `validation_errors` said of it.
use Prim.Native.Nat.{Ordering}
use Prim.Native.String.{compare}
use ultimate_bbsbox.Prelude.{
  String, Bool, true, false, Option, none, some, get_or, List, [], ◌∷◌, ◌==◌, if◌then◌else◌,
}
use ultimate_bbsbox.Prelude.Dict.{Dict, lookup, insert, contains}
use ultimate_bbsbox.Prelude.Exec.{Result, ok, err}
use ultimate_bbsbox.Prelude.Results.{◌>>=◌}
use ultimate_bbsbox.Errors.{Error, unknown_reference, duplicate_id, invalid_manifest}
use ultimate_bbsbox.Registry.Models.{Service, Endpoint, Integration}
use ultimate_bbsbox.Registry.Queries.{Registry, or_raise}

pub data Directory : Type 0 where
  services endpoints integrations elsewhere : Directory

pub data Document : Type 0 where
  service_doc : Service → Document
  endpoint_doc : Endpoint → Document
  integration_doc : Integration → Document
  other_doc : Document

-- A file beneath the root: its document, the directory it stands below, its schema verdict.
pub record Manifest : Type 0 where
  pub document : Document
  pub directory : Directory
  pub valid : Bool

abbrev pub empty : Registry
empty = record { services = []; endpoints = []; integrations = [] }

-- The last steps of the loop's body: the directory, the duplicate test, the insertion.
unfoldable pub file_under : Directory → Document → Registry → Result Error Registry
file_under services (service_doc s) r =
    if contains s.id r.services
    then err (duplicate_id s.id)
    else ok (record r { services = insert s.id s r.services })
file_under endpoints (endpoint_doc e) r =
    if contains e.id r.endpoints
    then err (duplicate_id e.id)
    else ok (record r { endpoints = insert e.id e r.endpoints })
file_under integrations (integration_doc i) r =
    if contains i.id r.integrations
    then err (duplicate_id i.id)
    else ok (record r { integrations = insert i.id i r.integrations })
file_under _ _ r = err invalid_manifest

unfoldable pub load_manifest : Manifest → Registry → Result Error Registry
unfolding file_under
load_manifest m r = if m.valid then file_under m.directory m.document r else err invalid_manifest

unfoldable pub load_all : List Manifest → Registry → Result Error Registry
unfolding load_manifest
load_all [] r = ok r
load_all (m ∷ rest) r = do next ← load_manifest m r; load_all rest next

-- `dict(sorted(items))`
unfoldable pub insert_sorted {ℓ} : {V : Type ℓ} → String → V → Dict V → Dict V
insert_sorted k v [] = (k, v) ∷ []
insert_sorted k v ((j, w) ∷ d) =
    let rest = insert_sorted k v d in
    elim (compare j k) [ Ordering.lt ↦ (j, w) ∷ rest | _ ↦ (k, v) ∷ (j, w) ∷ d ]

unfoldable pub sorted {ℓ} : {V : Type ℓ} → Dict V → Dict V
unfolding insert_sorted
sorted [] = []
sorted ((k, v) ∷ d) = insert_sorted k v (sorted d)

unfoldable pub create : Registry → Registry
unfolding sorted
create r = record {
  services = sorted r.services;
  endpoints = sorted r.endpoints;
  integrations = sorted r.integrations;
}

abbrev pub checked : Bool → Error → Result Error (Unit {0})
checked true e = ok tt
checked false e = err e

-- `for x in d.values(): check(x)`
unfoldable pub for_each :
    {V : Type 0} → (V → Result Error (Unit {0})) → Dict V → Result Error (Unit {0})
for_each check [] = ok tt
for_each check ((_, v) ∷ d) = do _ ← check v; for_each check d

unfoldable pub check_integration_of : Registry → Service → Option String → Result Error (Unit {0})
check_integration_of r s none = ok tt
check_integration_of r s (some i) = if i == "" then ok tt else do
  integration ← or_raise (lookup i r.integrations) (unknown_reference i)
  checked (integration.target == s.id) (unknown_reference i)

unfoldable pub check_via : Registry → List String → Result Error (Unit {0})
check_via r [] = ok tt
check_via r (bbs_id ∷ rest) = do
  bbs ← or_raise (lookup bbs_id r.services) (unknown_reference bbs_id)
  _ ← checked (bbs.kind == "bbs") (unknown_reference bbs_id)
  check_via r rest

unfoldable pub check_service : Registry → Service → Result Error (Unit {0})
unfolding check_integration_of check_via
check_service r s = do
  _ ← checked (contains s.endpoint_id r.endpoints) (unknown_reference s.endpoint_id)
  _ ← check_integration_of r s s.integration_id
  check_via r (get_or s.exposure.via_bbs [])

unfoldable pub check_integration : Registry → Integration → Result Error (Unit {0})
check_integration r i = checked (contains i.target r.services) (unknown_reference i.target)

unfoldable pub validate_references : Registry → Result Error (Unit {0})
validate_references r = do
  _ ← for_each (check_service r) r.services
  for_each (check_integration r) r.integrations

unfoldable pub validated : Registry → Result Error Registry
validated registry = do _ ← validate_references registry; ok registry

unfoldable pub load_registry : List Manifest → Result Error Registry
load_registry [] = err invalid_manifest
load_registry (m ∷ rest) = do indexes ← load_all (m ∷ rest) empty; validated (create indexes)
