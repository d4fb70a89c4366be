-- ===== src/Edge/Models.antt =====
-- `scripts/ubb_edge.py`: the parts of a configuration. Each function below is the `__post_init__` of
-- its class: it takes the fields as given and returns them as they are kept. What Python's
-- `ipaddress` makes of a text is an argument.
use ultimate_bbsbox.Prelude.{
  ℕ, String, Bool, true, false, not, ◌&&◌, Option, none, some, List, [], ◌∷◌, elem, ◌==◌,
  if◌then◌else◌,
}
use ultimate_bbsbox.Prelude.Exec.{Result, ok, err}
use ultimate_bbsbox.Prelude.Results.{◌>>=◌, ◌>>◌, each, check}
use ultimate_bbsbox.Errors.{Error, edge_config_error}
use ultimate_bbsbox.Edge.Names.{hostname, edge_id, port}

pub data IpVersion : Type 0 where
  v4 v6 : IpVersion

-- `str(ip_address(value))` with its `version`, and `str(ip_network(value, strict=False))`
pub record IpLibrary : Type 0 where
  pub ip_address : String → Option (String × IpVersion)
  pub ip_network : String → Option String

pub record OverlayNode : Type 0 where
  pub node_id : String
  pub role : String
  pub addresses : List String
  pub public_ipv4 : Option String
  pub public_ipv6 : Option String
  pub node_hostname : Option String
  pub capabilities : List String

pub record PrivateSite : Type 0 where
  pub site_id : String
  pub site_node_id : String
  pub private_cidrs : List String
  pub reachable_services : List String
  pub dns_identity : Option String

pub record PublicIdentity : Type 0 where
  pub public_name : String
  pub target : String
  pub enabled : Bool

pub record Ingress : Type 0 where
  pub ingress_id : String
  pub protocol : String
  pub public_port : ℕ
  pub target_service : String
  pub target_port : ℕ
  pub public_address : Option String
  pub target_host : Option String
  pub ingress_hostname : Option String
  pub enabled : Bool

pub record EdgeRoute : Type 0 where
  pub source : String
  pub destination_cidr : String
  pub approved : Bool
  pub exit_node : Bool

abbrev or_refused : Option String → Result Error String
or_refused none = err edge_config_error
or_refused (some text) = ok text

abbrev text_of : Option (String × IpVersion) → Option String
text_of none = none
text_of (some (text, _)) = some text

abbrev is_v4 : Option (String × IpVersion) → Bool
is_v4 (some (_, v4)) = true
is_v4 (some (_, v6)) = false
is_v4 none = false

abbrev is_v6 : Option (String × IpVersion) → Bool
is_v6 (some (_, v6)) = true
is_v6 (some (_, v4)) = false
is_v6 none = false

abbrev of_version : (String → Bool) → Option String → Bool
of_version p none = true
of_version p (some value) = p value

-- `if value: value = f(value)`
abbrev pub if_given : (String → Result Error String) → Option String → Result Error (Option String)
if_given f none = ok none
if_given f (some value) =
    let new = f value >>= λ v. ok (some v) in if value == "" then ok (some value) else new

abbrev is_given : Option String → Bool
is_given none = false
is_given (some value) = not (value == "")

module _ (lib : IpLibrary) where
  -- `_ip`
  unfoldable pub ip : String → Result Error String
  ip value = or_refused (text_of (lib.ip_address value))

  -- `_cidr`
  unfoldable pub cidr : String → Result Error String
  cidr value = or_refused (lib.ip_network value)

  unfoldable pub overlay_node : OverlayNode → Result Error OverlayNode
  overlay_node n = do
    edge_id n.node_id
    check (elem n.role ("edge" ∷ "site" ∷ "client" ∷ [])) edge_config_error
    addresses ← each ip n.addresses
    check (of_version (λ a. is_v4 (lib.ip_address a)) n.public_ipv4) edge_config_error
    check (of_version (λ a. is_v6 (lib.ip_address a)) n.public_ipv6) edge_config_error
    name ← if_given hostname n.node_hostname
    ok (record n { addresses = addresses; node_hostname = name })

  unfoldable pub private_site : PrivateSite → Result Error PrivateSite
  private_site s = do
    edge_id s.site_id
    edge_id s.site_node_id
    cidrs ← each cidr s.private_cidrs
    name ← if_given hostname s.dns_identity
    ok (record s { private_cidrs = cidrs; dns_identity = name })

  unfoldable pub public_identity : PublicIdentity → Result Error PublicIdentity
  public_identity i = do
    name ← hostname i.public_name
    edge_id i.target
    ok (record i { public_name = name })

  -- A name is refused for raw streams, which do not carry it.
  unfoldable pub ingress : Ingress → Result Error Ingress
  ingress i = do
    edge_id i.ingress_id
    check (elem i.protocol ("tcp" ∷ "udp" ∷ "http" ∷ "https" ∷ [])) edge_config_error
    port i.public_port
    port i.target_port
    edge_id i.target_service
    address ← if_given ip i.public_address
    host ← if_given ip i.target_host
    name ← if_given hostname i.ingress_hostname
    check (not (elem i.protocol ("tcp" ∷ "udp" ∷ []) && is_given name)) edge_config_error
    ok (record i { public_address = address; target_host = host; ingress_hostname = name })

  unfoldable pub edge_route : EdgeRoute → Result Error EdgeRoute
  edge_route r = do
    edge_id r.source
    destination ← cidr r.destination_cidr
    check (not r.exit_node) edge_config_error
    ok (record r { destination_cidr = destination })
