-- ===== src/Edge/Config.antt =====
-- `scripts/ubb_edge.py`: `EdgeConfig.__post_init__`, which checks the parts against each other.
use ultimate_bbsbox.Prelude.{
  ℕ, String, Bool, false, not, ◌&&◌, ◌||◌, Option, none, some, List, [], ◌∷◌, ◌++◌, map, all, elem,
  leb, is_distinct, starts_with, ◌==◌, if◌then◌else◌,
}
use ultimate_bbsbox.Prelude.Exec.{Result, ok}
use ultimate_bbsbox.Prelude.Results.{◌>>◌, check}
use ultimate_bbsbox.Errors.{Error, edge_config_error}
use ultimate_bbsbox.Edge.Models.{OverlayNode, PrivateSite, PublicIdentity, Ingress, EdgeRoute}

abbrev pub edge_providers : List String
edge_providers = "headscale" ∷ "tailscale" ∷ "wireguard" ∷ "zerotier" ∷ "nebula" ∷ []

pub record EdgeConfig : Type 0 where
  pub provider : String
  pub edge_node : OverlayNode
  pub sites : List PrivateSite
  pub public_identities : List PublicIdentity
  pub ingresses : List Ingress
  pub routes : List EdgeRoute
  pub derp_enabled : Bool
  pub secret_refs : List String

-- `(item.protocol, item.public_address or "*", item.public_port)`
pub record ListenerKey : Type 0 where
  pub key_protocol : String
  pub key_address : String
  pub key_port : ℕ

abbrev pub or_any : Option String → String
or_any none = "*"
or_any (some address) = if address == "" then "*" else address

abbrev pub listener_key : Ingress → ListenerKey
listener_key i = record {
  key_protocol = i.protocol;
  key_address = or_any i.public_address;
  key_port = i.public_port;
}

unfoldable pub is_same_key : ListenerKey → ListenerKey → Bool
is_same_key a b =
    a.key_protocol == b.key_protocol
    && a.key_address == b.key_address
    && leb a.key_port b.key_port
    && leb b.key_port a.key_port

-- `key == old` for an old one of `seen`
unfoldable pub is_seen : ListenerKey → List ListenerKey → Bool
is_seen key [] = false
is_seen key (old ∷ seen) = is_same_key key old || is_seen key seen

unfoldable pub services_of : List PrivateSite → List String
services_of [] = []
services_of (s ∷ ss) = s.reachable_services ++ services_of ss

-- a target that a site reaches, or the edge itself
abbrev pub is_declared : String → List String → String → Bool
is_declared edge services target = elem target services || edge == target

-- the loop over the ingresses, with the keys seen so far
unfoldable pub check_ingresses :
    String → List String → List ListenerKey → List Ingress → Result Error (Unit {0})
check_ingresses edge services seen [] = ok tt
check_ingresses edge services seen (i ∷ is) = do
  check (is_declared edge services i.target_service) edge_config_error
  check (not (is_seen (listener_key i) seen)) edge_config_error
  check_ingresses edge services (seen ++ listener_key i ∷ []) is

abbrev pub is_secret_ref : String → Bool
is_secret_ref ref = not (ref == "") && starts_with ref "/"

unfoldable pub edge_config : EdgeConfig → Result Error (Unit {0})
edge_config c = do
  check (elem c.provider edge_providers) edge_config_error
  check (c.edge_node.role == "edge") edge_config_error
  check (is_distinct (map (λ s. s.site_id) c.sites)) edge_config_error
  check (is_distinct (map (λ s. s.site_node_id) c.sites)) edge_config_error
  check (is_distinct (map (λ i. i.public_name) c.public_identities)) edge_config_error
  check
      (all (λ i. is_declared c.edge_node.node_id (services_of c.sites) i.target)
        c.public_identities)
      edge_config_error
  check_ingresses c.edge_node.node_id (services_of c.sites) [] c.ingresses
  check (all is_secret_ref c.secret_refs) edge_config_error
