-- ===== src/Registry/References.antt =====
-- What loading establishes: every reference resolves, and no manifest is lost.
use text.Mathlib.TextPositions.{compare_refl}
use ultimate_bbsbox.Prelude.{
  String, true, false, ◌≡◌, refl, ◌∙◌, ◌⊎◌, inl, inr, Option, none, some, get_or, List, [], ◌∷◌,
  arith, elem, ◌==◌, eq_iff, eq_refl, if◌then◌else◌, Bool-cases, Option-cases,
}
use ultimate_bbsbox.Prelude.Dict.{Dict, lookup, contains, lookup-insert}
use ultimate_bbsbox.Prelude.Exec.{Result, ok}
use ultimate_bbsbox.Prelude.Results.{>>=-eq-ok}
use ultimate_bbsbox.Errors.{Error}
use ultimate_bbsbox.Registry.Models.{Service, Endpoint, Integration, normalized}
use ultimate_bbsbox.Registry.Queries.{
  Registry, Resolution, endpoint_types, service, endpoint, integration_of, resolve,
}
use ultimate_bbsbox.Registry.Loader.{
  Manifest, Directory, services, Document, service_doc, load_all, load_manifest, file_under,
  insert_sorted, sorted, create, for_each, check_via, check_service, validate_references, validated,
  load_registry, empty,
}

lookup-insert_sorted :
    {V : Type 0} (k j : String) (v : V) (d : Dict V)
    → lookup j (insert_sorted k v d) ≡ (if k == j then some v else lookup j d)
unfolding lookup insert_sorted
lookup-insert_sorted k j v [] = refl
lookup-insert_sorted k j v ((i, w) ∷ d) =
    ground (arith, eq_iff i j, eq_iff k j, eq_iff i k, compare_refl i, lookup-insert_sorted k j v d)

-- Sorting an index does not change what it finds.
pub lookup-sorted : {V : Type 0} (j : String) (d : Dict V) → lookup j (sorted d) ≡ lookup j d
unfolding lookup sorted
lookup-sorted j [] = refl
lookup-sorted j ((k, v) ∷ d) =
    ground (arith, lookup-insert_sorted k j v (sorted d), lookup-sorted j d)

for_each-lookup :
    {V : Type 0} (check : V → Result Error (Unit {0})) (d : Dict V) (k : String) (v : V)
    → for_each check d ≡ ok tt
    → lookup k d ≡ some v
    → check v ≡ ok tt
unfolding for_each lookup
for_each-lookup check [] k v h e = cc
for_each-lookup check ((j, w) ∷ d) k v h e = ground (arith, for_each-lookup check d k v)

-- Every reference of the service is found, and its integration targets it.
pub record Resolves (r : Registry) (s : Service) : Type 0 where
  pub endpoint_known : contains s.endpoint_id r.endpoints ≡ true
  pub integration_known :
      (i : String)
      → s.integration_id ≡ some i
      → (i == "") ≡ false
      → (n : Integration) × (lookup i r.integrations ≡ some n) × (n.target ≡ s.id)
  pub via_known :
      (b : String)
      → elem b (get_or s.exposure.via_bbs []) ≡ true
      → (bbs : Service) × (lookup b r.services ≡ some bbs) × (bbs.kind ≡ "bbs")

check_via-elem :
    (r : Registry) (bs : List String) (b : String)
    → check_via r bs ≡ ok tt
    → elem b bs ≡ true
    → (bbs : Service) × (lookup b r.services ≡ some bbs) × (bbs.kind ≡ "bbs")
unfolding check_via
check_via-elem r [] b h m = cc
check_via-elem r (x ∷ bs) b h m = elim (Option-cases (lookup x r.services)) [
  | inl missing ↦ ground arith
  | inr (bbs, e) ↦ elim (Bool-cases (x == b)) [
    | inl same ↦ (bbs, ground (arith, eq_iff x b), ground (arith, eq_iff bbs.kind "bbs"))
    | inr other ↦ check_via-elem r bs b (ground arith) (ground arith)
  ]
]

check_service-Resolves : (r : Registry) (s : Service) → check_service r s ≡ ok tt → Resolves r s
unfolding check_service
check_service-Resolves r s h = record {
  endpoint_known = ground arith;
  integration_known = λ i e ne. integration_found i e ne (Option-cases (lookup i r.integrations));
  via_known = λ b m. check_via-elem r (get_or s.exposure.via_bbs []) b (ground arith) m;
}
  where
    integration_found :
        (i : String)
        → s.integration_id ≡ some i
        → (i == "") ≡ false
        → (lookup i r.integrations ≡ none)
          ⊎ ((n : Integration) × (lookup i r.integrations ≡ some n))
        → (n : Integration) × (lookup i r.integrations ≡ some n) × (n.target ≡ s.id)
    integration_found i e ne (inl missing) = ground arith
    integration_found i e ne (inr (n, f)) = (n, f, ground (arith, eq_iff n.target s.id))

validated-eq : (r q : Registry) → validated q ≡ ok r → (q ≡ r) × (validate_references q ≡ ok tt)
unfolding validated
validated-eq r q h = ground arith

load_registry-validated :
    (ms : List Manifest) (r : Registry)
    → load_registry ms ≡ ok r
    → (q : Registry) × (load_all ms empty ≡ ok q)
      × (create q ≡ r)
      × (validate_references (create q) ≡ ok tt)
unfolding load_registry
load_registry-validated [] r h = cc
load_registry-validated (m ∷ ms) r h =
    let (q, e, v) = >>=-eq-ok (load_all (m ∷ ms) empty) (λ q. validated (create q)) h in
    (q, e, (validated-eq r (create q) v).0, (validated-eq r (create q) v).1)

validate_references-services :
    (r : Registry) (id : String) (s : Service)
    → validate_references r ≡ ok tt
    → lookup id r.services ≡ some s
    → check_service r s ≡ ok tt
unfolding validate_references
validate_references-services r id s h e =
    ground (arith, for_each-lookup (check_service r) r.services id s)

load_registry-Resolves :
    (ms : List Manifest) (r : Registry) (id : String) (s : Service)
    → load_registry ms ≡ ok r
    → lookup id r.services ≡ some s
    → Resolves r s
load_registry-Resolves ms r id s h e =
    let (q, _, same, v) = load_registry-validated ms r h in
    check_service-Resolves r s (validate_references-services r id s (rw same at v) e)

-- After loading, each board of a service's `via_bbs` list is a service of kind "bbs".
pub load_registry-via :
    (ms : List Manifest) (r : Registry) (id : String) (s : Service) (b : String)
    → load_registry ms ≡ ok r
    → lookup id r.services ≡ some s
    → elem b (get_or s.exposure.via_bbs []) ≡ true
    → (bbs : Service) × (lookup b r.services ≡ some bbs) × (bbs.kind ≡ "bbs")
load_registry-via ms r id s b h e m = (load_registry-Resolves ms r id s h e).via_known b m

-- The endpoint types that the program knows.
abbrev pub IsSupported : Registry → Type 0
IsSupported r =
    (k : String) (e : Endpoint) → lookup k r.endpoints ≡ some e → elem e.kind endpoint_types ≡ true

integration_of-total :
    (r : Registry) (s : Service)
    → Resolves r s
    → (i : Option Integration) × (integration_of r s.integration_id ≡ ok i)
unfolding integration_of
integration_of-total r s h = elim (Option-cases s.integration_id) [
  | inl e ↦ (none, rw e)
  | inr (i, e) ↦ elim (Bool-cases (i == "")) [
    | inl blank ↦ (none, rw e (rw blank))
    | inr named ↦ let (n, f, _) = h.integration_known i e named in (some n, rw e (rw named (rw f)))
  ]
]

endpoint-total :
    (r : Registry) (s : Service)
    → Resolves r s
    → IsSupported r
    → (e : Endpoint) × (endpoint r s.endpoint_id ≡ ok e)
unfolding endpoint
endpoint-total r s h known = elim (Option-cases (lookup s.endpoint_id r.endpoints)) [
  | inl missing ↦ ground (arith, h.endpoint_known)
  | inr (e, f) ↦ (e, rw f (rw (known s.endpoint_id e f)))
]

-- A service of a loaded registry whose endpoints are all of a known type resolves, and to itself.
pub resolve-total :
    (ms : List Manifest) (r : Registry) (id : String) (s : Service)
    → load_registry ms ≡ ok r
    → lookup id r.services ≡ some s
    → IsSupported r
    → (d : Resolution) × (resolve r id ≡ ok d) × (d.service ≡ s)
unfolding resolve service
resolve-total ms r id s h e known =
    let refs = load_registry-Resolves ms r id s h e in
    let (p, ep) = endpoint-total r s refs known in
    let (i, ei) = integration_of-total r s refs in
    (record { service = s; endpoint = normalized p; integration = i }, rw (e, ep, ei), refl)

file_under-service :
    (where_ : Directory) (r q : Registry) (s : Service)
    → file_under where_ (service_doc s) r ≡ ok q
    → lookup s.id q.services ≡ some s
unfolding file_under
file_under-service services r q s h =
    ground (arith, lookup-insert s.id s.id s r.services, eq_refl s.id)
file_under-service _ r q s h = cc

file_under-keeps :
    (where_ : Directory) (doc : Document) (r q : Registry) (k : String) (s : Service)
    → file_under where_ doc r ≡ ok q
    → lookup k r.services ≡ some s
    → lookup k q.services ≡ some s
unfolding file_under
file_under-keeps services (service_doc t) r q k s h e =
    ground (arith, lookup-insert t.id k t r.services, eq_iff t.id k)
file_under-keeps _ _ r q k s h e = ground arith

load_manifest-filed :
    (m : Manifest) (r q : Registry)
    → load_manifest m r ≡ ok q
    → file_under m.directory m.document r ≡ ok q
unfolding load_manifest
load_manifest-filed m r q h = elim (Bool-cases m.valid) [
  | inl valid ↦ rw valid at h
  | inr broken ↦ absurd (cc (rw broken at h))
]

load_all-keeps :
    (ms : List Manifest) (r q : Registry) (k : String) (s : Service)
    → load_all ms r ≡ ok q
    → lookup k r.services ≡ some s
    → lookup k q.services ≡ some s
unfolding load_all
load_all-keeps [] r q k s h e = ground arith
load_all-keeps (m ∷ ms) r q k s h e =
    let (n, e1, rest) = >>=-eq-ok (load_manifest m r) (load_all ms) h in
    load_all-keeps ms n q k s rest
      (file_under-keeps m.directory m.document r n k s (load_manifest-filed m r n e1) e)

-- The manifest stands among the files.
pub data IsListed (m : Manifest) : List Manifest → Type 0 where
  here : {ms : List Manifest} → IsListed m (m ∷ ms)
  there : {n : Manifest} {ms : List Manifest} → IsListed m ms → IsListed m (n ∷ ms)

load_all-IsListed :
    (m : Manifest) (ms : List Manifest) (r q : Registry) (s : Service)
    → load_all ms r ≡ ok q
    → IsListed m ms
    → m.document ≡ service_doc s
    → lookup s.id q.services ≡ some s
unfolding load_all
load_all-IsListed m _ r q s h (here {ms = ms}) e =
    let (n, e1, rest) = >>=-eq-ok (load_manifest m r) (load_all ms) h in
    load_all-keeps ms n q s.id s rest
      (file_under-service m.directory r n s (rw e at (load_manifest-filed m r n e1)))
load_all-IsListed m _ r q s h (there {n = other} {ms = ms} l) e =
    let (n, _, rest) = >>=-eq-ok (load_manifest other r) (load_all ms) h in
    load_all-IsListed m ms n q s rest l e

-- A registry that loads holds the service of every manifest, under its own id: none is overwritten
-- by another of the same id, and none is lost in sorting.
pub load_registry-IsListed :
    (ms : List Manifest) (m : Manifest) (r : Registry) (s : Service)
    → load_registry ms ≡ ok r
    → IsListed m ms
    → m.document ≡ service_doc s
    → lookup s.id r.services ≡ some s
unfolding create
load_registry-IsListed ms m r s h l e =
    let (q, loaded, same, _) = load_registry-validated ms r h in
    rw (← same) (lookup-sorted s.id q.services ∙ load_all-IsListed m ms empty q s loaded l e)
