-- ===== src/Registry/Queries.antt =====
-- `scripts/ubb_registry/registry.py`: indexed, read-only queries.
use ultimate_bbsbox.Prelude.{
  String, Bool, true, false, not, ◌&&◌, ◌||◌, Option, none, some, get_or, List, [], ◌∷◌, elem, ◌==◌,
  if◌then◌else◌,
}
use ultimate_bbsbox.Prelude.Dict.{Dict, lookup}
use ultimate_bbsbox.Prelude.Exec.{Result, ok, err}
use ultimate_bbsbox.Prelude.Results.{◌>>=◌}
use ultimate_bbsbox.Errors.{Error, unknown_reference, unsupported_endpoint_type}
use ultimate_bbsbox.Registry.Models.{Service, Endpoint, Integration, Normalized, normalized}

pub record Registry : Type 0 where
  pub services : Dict Service
  pub endpoints : Dict Endpoint
  pub integrations : Dict Integration

abbrev pub endpoint_types : List String
endpoint_types =
    "local_process" ∷ "tcp" ∷ "udp" ∷ "ssh" ∷ "serial" ∷ "supervisor" ∷ "remote_supervisor" ∷ []

-- The answer of `resolve`.
pub record Resolution : Type 0 where
  pub service : Service
  pub endpoint : Normalized
  pub integration : Option Integration

-- The keyword arguments of `list_services`; an empty text is as good as an absent one.
pub record Query : Type 0 where
  pub service_type : Option String
  pub main_menu : Option Bool
  pub via_bbs : Option String
  pub bbs_only : Bool
  pub endpoint_type : Option String
  pub runtime : Option String

-- `d[k]`, with the KeyError turned into the package's own exception.
abbrev pub or_raise : {V : Type 0} → Option V → Error → Result Error V
or_raise none e = err e
or_raise (some v) e = ok v

module _ (r : Registry) where
  unfoldable pub service : String → Result Error Service
  service service_id = or_raise (lookup service_id r.services) (unknown_reference service_id)

  unfoldable pub endpoint : String → Result Error Endpoint
  endpoint endpoint_id = do
    e ← or_raise (lookup endpoint_id r.endpoints) (unknown_reference endpoint_id)
    if elem e.kind endpoint_types then ok e else err (unsupported_endpoint_type e.kind)

  unfoldable pub integration : String → Result Error Integration
  integration integration_id =
      or_raise (lookup integration_id r.integrations) (unknown_reference integration_id)

  -- `self.integration(service.integration_id) if service.integration_id else None`
  unfoldable pub integration_of : Option String → Result Error (Option Integration)
  unfolding integration
  integration_of none = ok none
  integration_of (some i) = if i == "" then ok none else (do found ← integration i; ok (some found))

  unfoldable pub resolve : String → Result Error Resolution
  unfolding service endpoint integration_of normalized
  resolve service_id = do
    s ← service service_id
    e ← endpoint s.endpoint_id
    i ← integration_of s.integration_id
    ok (record { service = s; endpoint = normalized e; integration = i })

-- `if wanted and actual != wanted: continue`, as a test that the service passes
unfoldable pub passes : Option String → String → Bool
passes none actual = true
passes (some wanted) actual = wanted == "" || actual == wanted

unfoldable pub passes_menu : Option Bool → Bool → Bool
passes_menu none actual = true
passes_menu (some true) actual = actual
passes_menu (some false) actual = not actual

unfoldable pub passes_via : Option String → List String → Bool
passes_via none allowed = true
passes_via (some wanted) allowed = wanted == "" || elem wanted allowed

unfoldable pub passes_runtime : Option String → Option Integration → Bool
passes_runtime none i = true
passes_runtime (some wanted) none = wanted == ""
passes_runtime (some wanted) (some i) = wanted == "" || i.runtime == wanted

abbrev pub is_empty {ℓ} : {A : Type ℓ} → List A → Bool
is_empty [] = true
is_empty (_ ∷ _) = false

-- The body of the loop: whether the service is appended.
unfoldable pub selected : Query → Service → Endpoint → Option Integration → Bool
unfolding passes passes_menu passes_via passes_runtime normalized
selected q s e i =
    let via = get_or s.exposure.via_bbs [] in
    passes q.service_type s.kind
    && passes_menu q.main_menu s.exposure.main_menu
    && passes_via q.via_bbs via
    && not (q.bbs_only && (s.exposure.main_menu || is_empty via))
    && passes q.endpoint_type (normalized e).kind
    && passes_runtime q.runtime i

unfoldable pub list_from : Registry → Query → Dict Service → Result Error (List Service)
unfolding endpoint integration_of selected
list_from r q [] = ok []
list_from r q ((_, s) ∷ rest) = do
  e ← endpoint r s.endpoint_id
  i ← integration_of r s.integration_id
  values ← list_from r q rest
  ok (if selected q s e i then s ∷ values else values)

unfoldable pub list_services : Registry → Query → Result Error (List Service)
unfolding list_from
list_services r q = list_from r q r.services
