-- ===== src/Edge/Deployable.antt =====
-- `scripts/ubb_edge.py`: what the checks of a configuration accept, said without them.
use ultimate_bbsbox.Prelude.{
  String, true, false, ◌≡◌, ◌≢◌, ◌↔◌, refl, List, [], ◌∷◌, ◌++◌, all, elem, arith, ◌==◌, eq_iff,
  eq_refl, Bool-cases, inl, inr, Option, none, some, ap, if◌then◌else◌,
}
use ultimate_bbsbox.Prelude.Exec.{ok}
use ultimate_bbsbox.Prelude.Results.{check, checked, check-ok, >>=-eq-ok}
use ultimate_bbsbox.Prelude.Every.{
  Every, Pairwise, Pairwise-map, Every-append, Every-left, Every-right, Every-map, Every-both,
  all→Every, Every→all, is_distinct→Pairwise, Pairwise→is_distinct,
}
use ultimate_bbsbox.Errors.{edge_config_error}
use ultimate_bbsbox.Edge.Models.{Ingress}
use ultimate_bbsbox.Edge.Targets.{IsTarget, declared-IsTarget, IsTarget-declared}
use ultimate_bbsbox.Edge.Config.{
  EdgeConfig, ListenerKey, or_any, edge_providers, listener_key, is_same_key, is_seen, services_of,
  is_declared, check_ingresses, is_secret_ref, edge_config,
}

-- An ingress whose target is declared.
abbrev HasTarget : String → List String → Ingress → Type 0
HasTarget edge services i = is_declared edge services i.target_service ≡ true

-- The text that an address is compared by: all addresses, where it is missing or empty.
abbrev pub bind_text : Option String → String
bind_text none = "*"
bind_text (some address) = if address == "" then "*" else address

-- Two ingresses that differ in protocol, address or port.
abbrev pub IsApart : Ingress → Ingress → Type 0
IsApart a b = ¬ (
    (a.protocol ≡ b.protocol)
    × (bind_text a.public_address ≡ bind_text b.public_address)
    × (a.public_port ≡ b.public_port))

pub record IsDeployable (c : EdgeConfig) : Type 0 where
  pub provider_known : elem c.provider edge_providers ≡ true
  pub edge_role : c.edge_node.role ≡ "edge"
  pub sites_differ : Pairwise (λ a b. a.site_id ≢ b.site_id) c.sites
  pub nodes_differ : Pairwise (λ a b. a.site_node_id ≢ b.site_node_id) c.sites
  pub names_differ : Pairwise (λ a b. a.public_name ≢ b.public_name) c.public_identities
  pub identities_declared :
      Every (λ i. IsTarget c.edge_node.node_id c.sites i.target) c.public_identities
  pub targets_declared :
      Every (λ i. IsTarget c.edge_node.node_id c.sites i.target_service) c.ingresses
  pub listeners_apart : Pairwise IsApart c.ingresses
  pub secrets_outside : Every (λ r. is_secret_ref r ≡ true) c.secret_refs

bind_text-or_any : (o : Option String) → bind_text o ≡ or_any o
bind_text-or_any none = refl
bind_text-or_any (some address) = refl

-- Ingresses with different keys, as the loop compares them.
abbrev HasOwnKey : Ingress → Ingress → Type 0
HasOwnKey a b = listener_key a ≢ listener_key b

HasOwnKey-IsApart : (a b : Ingress) → HasOwnKey a b → IsApart a b
HasOwnKey-IsApart a b h (protocol, address, port) =
    let texts : or_any a.public_address ≡ or_any b.public_address =
      rw (bind_text-or_any a.public_address, bind_text-or_any b.public_address) at address in
    h (cc (protocol, texts, port))

IsApart-HasOwnKey : (a b : Ingress) → IsApart a b → HasOwnKey a b
IsApart-HasOwnKey a b h same =
    let texts : or_any a.public_address ≡ or_any b.public_address =
      ap (λ (k : ListenerKey). k.key_address) same in
    h (
      ap (λ (k : ListenerKey). k.key_protocol) same,
      rw (bind_text-or_any a.public_address, bind_text-or_any b.public_address) texts,
      ap (λ (k : ListenerKey). k.key_port) same,
    )

is_same_key-eq : (a b : ListenerKey) → is_same_key a b ≡ true → a ≡ b
unfolding is_same_key
is_same_key-eq a b h =
    ground (arith, eq_iff a.key_protocol b.key_protocol, eq_iff a.key_address b.key_address)

is_same_key_refl : (a : ListenerKey) → is_same_key a a ≡ true
unfolding is_same_key
is_same_key_refl a = ground (arith, eq_refl a.key_protocol, eq_refl a.key_address)

is_same_key-ne : (a b : ListenerKey) → a ≢ b → is_same_key a b ≡ false
is_same_key-ne a b h = elim (Bool-cases (is_same_key a b)) [
  | inl same ↦ absurd (h (is_same_key-eq a b same))
  | inr other ↦ other
]

unseen→Every :
    (key : ListenerKey) (seen : List ListenerKey)
    → is_seen key seen ≡ false
    → Every (λ old. old ≢ key) seen
unfolding is_seen
unseen→Every key [] h = tt
unseen→Every key (old ∷ seen) h =
    (λ e. ground (arith, is_same_key_refl old), unseen→Every key seen (ground arith))

Every→unseen :
    (key : ListenerKey) (seen : List ListenerKey)
    → Every (λ old. old ≢ key) seen
    → is_seen key seen ≡ false
unfolding is_seen
Every→unseen key [] h = refl
Every→unseen key (old ∷ seen) h =
    ground (arith, is_same_key-ne key old (λ e. h.0 (cc)), Every→unseen key seen h.1)

module _ (edge : String) (services : List String) where
  -- What has been seen is apart from every ingress still to come.
  abbrev IsFree : List ListenerKey → List Ingress → Type 0
  IsFree seen is = Every (λ i. Every (λ old. old ≢ listener_key i) seen) is

  record IsListening (seen : List ListenerKey) (is : List Ingress) : Type 0 where
    declared : Every (HasTarget edge services) is
    apart : Pairwise HasOwnKey is
    free : IsFree seen is

  check_ingresses-IsListening :
      (seen : List ListenerKey) (is : List Ingress)
      → check_ingresses edge services seen is ≡ ok tt
      → IsListening seen is
  unfolding check_ingresses
  check_ingresses-IsListening seen [] h = record { declared = tt; apart = tt; free = tt }
  check_ingresses-IsListening seen (i ∷ is) h =
      let (here, h') = checked _ edge_config_error _ h in
      let (new, rest) = checked _ edge_config_error _ h' in
      let ih = check_ingresses-IsListening (seen ++ listener_key i ∷ []) is rest in
      record {
        declared = (here, ih.declared);
        apart = (
          Every-map _ _ is (λ j f. (Every-right _ seen (listener_key i ∷ []) f).0) ih.free,
          ih.apart,
        );
        free = (
          unseen→Every (listener_key i) seen (ground arith),
          Every-map _ _ is (λ j f. Every-left _ seen (listener_key i ∷ []) f) ih.free,
        );
      }

  IsListening-check_ingresses :
      (seen : List ListenerKey) (is : List Ingress)
      → IsListening seen is
      → check_ingresses edge services seen is ≡ ok tt
  unfolding check_ingresses
  IsListening-check_ingresses seen [] l = refl
  IsListening-check_ingresses seen (i ∷ is) l =
      let rest = IsListening-check_ingresses (seen ++ listener_key i ∷ []) is (record {
        declared = l.declared.1;
        apart = l.apart.1;
        free =
            Every-both _ _ _ is (λ j old new. Every-append _ seen _ old (new, tt)) l.free.1
              l.apart.0;
      }) in
      rw (l.declared.0, Every→unseen (listener_key i) seen l.free.0) rest

accepted : (c : EdgeConfig) → edge_config c ≡ ok tt → IsDeployable c
unfolding edge_config
accepted c h =
    let (provider, h) = checked _ edge_config_error _ h in
    let (role, h) = checked (c.edge_node.role == "edge") edge_config_error _ h in
    let (sites, h) = checked _ edge_config_error _ h in
    let (nodes, h) = checked _ edge_config_error _ h in
    let (names, h) = checked _ edge_config_error _ h in
    let (identities, h) = checked _ edge_config_error _ h in
    let (u, listening, secrets) =
      >>=-eq-ok (check_ingresses _ _ _ _)
        (λ _. check (all is_secret_ref c.secret_refs) edge_config_error) h in
    let l = check_ingresses-IsListening _ _ [] c.ingresses listening in
    record {
      provider_known = provider;
      edge_role = ground (arith, eq_iff c.edge_node.role "edge", role);
      sites_differ = is_distinct→Pairwise (λ s. s.site_id) c.sites sites;
      nodes_differ = is_distinct→Pairwise (λ s. s.site_node_id) c.sites nodes;
      names_differ = is_distinct→Pairwise (λ i. i.public_name) c.public_identities names;
      identities_declared =
          Every-map _ _ c.public_identities (λ i h. declared-IsTarget _ c.sites i.target h)
            (all→Every _ c.public_identities identities);
      targets_declared =
          Every-map _ _ c.ingresses (λ i h. declared-IsTarget _ c.sites i.target_service h)
            l.declared;
      listeners_apart = Pairwise-map _ _ HasOwnKey-IsApart c.ingresses l.apart;
      secrets_outside = all→Every _ c.secret_refs (check-ok _ edge_config_error secrets);
    }

unseen_at_first : (is : List Ingress) → Every (λ i. Unit {0}) is
unseen_at_first [] = tt
unseen_at_first (i ∷ is) = (tt, unseen_at_first is)

acceptable : (c : EdgeConfig) → IsDeployable c → edge_config c ≡ ok tt
unfolding edge_config
acceptable c d =
    let role : (c.edge_node.role == "edge") ≡ true = rw d.edge_role refl in
    let listening =
      IsListening-check_ingresses c.edge_node.node_id (services_of c.sites) [] c.ingresses (record {
        declared =
            Every-map _ _ c.ingresses (λ i h. IsTarget-declared _ c.sites i.target_service h)
              d.targets_declared;
        apart = Pairwise-map _ _ IsApart-HasOwnKey c.ingresses d.listeners_apart;
        free = unseen_at_first c.ingresses;
      }) in
    rw
      (
        d.provider_known,
        role,
        Pairwise→is_distinct (λ s. s.site_id) c.sites d.sites_differ,
        Pairwise→is_distinct (λ s. s.site_node_id) c.sites d.nodes_differ,
        Pairwise→is_distinct (λ i. i.public_name) c.public_identities d.names_differ,
        Every→all _ c.public_identities (
            Every-map _ _ c.public_identities (λ i h. IsTarget-declared _ c.sites i.target h)
              d.identities_declared),
        listening,
        Every→all _ c.secret_refs d.secrets_outside,
      )
      refl

-- A configuration is accepted exactly when its provider is known, its edge is an edge, no two sites
-- have the same id or node, no two public names are the same, every identity and every ingress leads
-- to the edge or to a service that one of the sites reaches, no two ingresses have the same protocol,
-- port and text of the public address ("*" where it is missing or empty), and every secret is named
-- by an absolute path.
pub edge_config-IsDeployable : (c : EdgeConfig) → (edge_config c ≡ ok tt) ↔ IsDeployable c
edge_config-IsDeployable c = (accepted c, acceptable c)
