-- ===== src/Edge/Samples.antt =====
-- An edge with one site, for the tests and the witnesses.
use ultimate_bbsbox.Prelude.{
  ◌≤◌, true, false, ◌≡◌, ◌↔◌, refl, none, some, [], ◌∷◌, all, codes, length,
}
use ultimate_bbsbox.Prelude.Chars.{is_id, lower}
use ultimate_bbsbox.Prelude.Exec.{ok, err}
use ultimate_bbsbox.Errors.{edge_config_error}
use ultimate_bbsbox.Edge.Names.{hostname, strip_dots, split_dots, is_label, is_name, edge_id, port}
use ultimate_bbsbox.Edge.Hostnames.{is_name_char, hostname-hostname}
use ultimate_bbsbox.Edge.Models.{IpLibrary, v4, OverlayNode, PrivateSite, Ingress, ingress, ip}
use ultimate_bbsbox.Edge.Config.{
  EdgeConfig, edge_config, check_ingresses, services_of, is_seen, is_same_key,
}
use ultimate_bbsbox.Edge.Deployable.{IsDeployable, edge_config-IsDeployable}

normal : hostname "Box.Example.ORG." ≡ ok "box.example.org"
unfolding hostname strip_dots split_dots is_label is_name lower
normal = refl

empty_part : hostname "box..org" ≡ err edge_config_error
unfolding hostname strip_dots split_dots is_label is_name lower
empty_part = refl

hostname-hostname_example :
    (hostname "box.example.org" ≡ ok "box.example.org")
    × (all is_name_char (codes "box.example.org") ≡ true)
    × (length (codes "box.example.org") ≤ 253)
hostname-hostname_example = hostname-hostname "Box.Example.ORG." "box.example.org" normal

abbrev edge_node : OverlayNode
edge_node = record {
  node_id = "edge-1";
  role = "edge";
  addresses = [];
  public_ipv4 = none;
  public_ipv6 = none;
  node_hostname = none;
  capabilities = [];
}

abbrev home : PrivateSite
home = record {
  site_id = "home";
  site_node_id = "node-1";
  private_cidrs = [];
  reachable_services = "bbs" ∷ [];
  dns_identity = none;
}

abbrev telnet : Ingress
telnet = record {
  ingress_id = "telnet";
  protocol = "tcp";
  public_port = 23;
  target_service = "bbs";
  target_port = 2323;
  public_address = none;
  target_host = none;
  ingress_hostname = none;
  enabled = true;
}

abbrev config : EdgeConfig
config = record {
  provider = "headscale";
  edge_node = edge_node;
  sites = home ∷ [];
  public_identities =
      record { public_name = "box.example.org"; target = "bbs"; enabled = true } ∷ [];
  ingresses = telnet ∷ record telnet { ingress_id = "second"; public_port = 2300 } ∷ [];
  routes = [];
  derp_enabled = false;
  secret_refs = "/run/secrets/key" ∷ [];
}

accepted : edge_config config ≡ ok tt
unfolding edge_config check_ingresses services_of is_seen is_same_key
accepted = refl

colliding : edge_config (record config { ingresses = telnet ∷ telnet ∷ [] }) ≡ err edge_config_error
unfolding edge_config check_ingresses services_of is_seen is_same_key
colliding = refl

relative_secret : edge_config (record config { secret_refs = "key" ∷ [] }) ≡ err edge_config_error
unfolding edge_config check_ingresses services_of is_seen is_same_key
relative_secret = refl

edge_config-IsDeployable_example : (edge_config config ≡ ok tt) ↔ IsDeployable config
edge_config-IsDeployable_example = edge_config-IsDeployable config

abbrev no_ip : IpLibrary
no_ip = record { ip_address = λ a. some (a, v4); ip_network = λ a. some a }

-- A stream does not say the name that its caller used.
named_stream :
    ingress no_ip (record telnet { ingress_hostname = some "box.example.org" })
    ≡ err edge_config_error
unfolding ingress ip edge_id port is_id hostname strip_dots split_dots is_label is_name lower
named_stream = refl
