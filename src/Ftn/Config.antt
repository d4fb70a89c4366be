-- ===== src/Ftn/Config.antt =====
-- `scripts/ubb_ftn.py`: the classes of a FidoNet configuration. Each function below is the
-- `__post_init__` of its class: it takes the fields as given and returns them as they are kept.
use ultimate_bbsbox.Prelude.{
  ℕ, String, Bool, true, false, not, ◌&&◌, ◌||◌, Option, none, some, List, [], ◌∷◌, map, all, any,
  elem, leb, length, codes, is_id, is_upper, is_digit, is_distinct, starts_all, starts_with, ◌==◌,
}
use ultimate_bbsbox.Prelude.Chars.{is_code}
use ultimate_bbsbox.Prelude.Exec.{Result, ok}
use ultimate_bbsbox.Prelude.Results.{◌>>=◌, ◌>>◌, each, check}
use ultimate_bbsbox.Errors.{Error, ftn_config_error}
use ultimate_bbsbox.Ftn.Address.{ftn_address}

pub record FtnPeer : Type 0 where
  pub peer_id : String
  pub peer_address : List ℕ
  pub peer_host : String
  pub peer_port : ℕ
  pub password_ref : Option String
  pub peer_enabled : Bool
  pub poll_policy : String

pub record FtnArea : Type 0 where
  pub tag : String
  pub area_network : String
  pub area_kind : String
  pub bbs_service : Option String
  pub bbs_area : Option String
  pub area_enabled : Bool

pub record FtnAdapter : Type 0 where
  pub adapter_service : String
  pub adapter_capabilities : List String
  pub adapter_mode : String
  pub checkpoint_ref : Option String

pub record FtnNetwork : Type 0 where
  pub network_id : String
  pub display_name : String
  pub local_addresses : List (List ℕ)
  pub peers : List FtnPeer
  pub areas : List FtnArea
  pub network_enabled : Bool
  pub public_listener : Bool
  pub bind_host : String
  pub spool_root : String
  pub encoding : String
  pub nodelist_ref : Option String
  pub archive_method : String

pub record FtnConfig : Type 0 where
  pub networks : List FtnNetwork
  pub adapters : List FtnAdapter
  pub listen_port : ℕ

-- `'\n' in v or '\r' in v`
abbrev has_line_end : String → Bool
has_line_end v = any (λ c. is_code 10 c || is_code 13 c) (codes v)

-- `external`
unfoldable pub is_external : String → Bool
is_external v = starts_with v "/" && not (has_line_end v)

-- `if v: f(v)`, of a test
abbrev pub holds_if_given : (String → Bool) → Option String → Bool
holds_if_given p none = true
holds_if_given p (some v) = v == "" || p v

-- `[A-Z0-9][A-Z0-9_-]{0,63}`
unfoldable pub is_area_tag : String → Bool
is_area_tag v =
    starts_all (λ c. is_upper c || is_digit c)
      (λ c. is_upper c || is_digit c || is_code 95 c || is_code 45 c) (codes v)
    && leb (length (codes v)) 64

abbrev pub poll_policies : List String
poll_policies = "always_listening" ∷ "interval" ∷ "scheduled" ∷ "manual" ∷ []

unfoldable pub ftn_peer : FtnPeer → Result Error FtnPeer
ftn_peer p = do
  check (is_id p.peer_id) ftn_config_error
  address ← ftn_address p.peer_address
  check (not (p.peer_host == "") && not (has_line_end p.peer_host)) ftn_config_error
  check (leb 1 p.peer_port && leb p.peer_port 65535) ftn_config_error
  check (holds_if_given is_external p.password_ref) ftn_config_error
  check (elem p.poll_policy poll_policies) ftn_config_error
  ok (record p { peer_address = address })

unfoldable pub ftn_area : FtnArea → Result Error FtnArea
ftn_area a = do
  check (is_area_tag a.tag) ftn_config_error
  check (is_id a.area_network) ftn_config_error
  check (elem a.area_kind ("echomail" ∷ "netmail" ∷ [])) ftn_config_error
  check (holds_if_given is_id a.bbs_service) ftn_config_error
  ok a

-- `FTNAdapter(service, capabilities)`, with the defaults of the class
unfoldable pub default_adapter : String → List String → FtnAdapter
default_adapter service capabilities = record {
  adapter_service = service;
  adapter_capabilities = capabilities;
  adapter_mode = "scheduled_exchange";
  checkpoint_ref = none;
}

abbrev adapter_capabilities_allowed : List String
adapter_capabilities_allowed =
    "import_echomail" ∷ "export_echomail" ∷ "import_netmail" ∷ "export_netmail" ∷ "native_ftn"
    ∷ "batch_exchange" ∷ "scheduled_exchange" ∷ []

unfoldable pub ftn_adapter : FtnAdapter → Result Error FtnAdapter
ftn_adapter a = do
  check (is_id a.adapter_service) ftn_config_error
  check (all (λ x. elem x adapter_capabilities_allowed) a.adapter_capabilities) ftn_config_error
  check (elem a.adapter_mode poll_policies) ftn_config_error
  check (holds_if_given is_external a.checkpoint_ref) ftn_config_error
  ok a

abbrev pub is_empty_list {ℓ} : {A : Type ℓ} → List A → Bool
is_empty_list [] = true
is_empty_list (_ ∷ _) = false

-- A network that listens to everybody and knows nobody.
unfoldable pub is_open : FtnNetwork → Bool
is_open n = n.public_listener && elem n.bind_host ("0.0.0.0" ∷ "::" ∷ []) && is_empty_list n.peers

unfoldable pub ftn_network : FtnNetwork → Result Error FtnNetwork
ftn_network n = do
  check (is_id n.network_id) ftn_config_error
  check (not (is_empty_list n.local_addresses)) ftn_config_error
  addresses ← each ftn_address n.local_addresses
  check (elem n.encoding ("CP437" ∷ "CP850" ∷ "ISO-8859-1" ∷ "UTF-8" ∷ "network-defined" ∷ []))
      ftn_config_error
  check (elem n.archive_method ("none" ∷ "zip" ∷ "arc" ∷ "arj" ∷ "lzh" ∷ [])) ftn_config_error
  check (not (is_open n)) ftn_config_error
  check (holds_if_given is_external n.nodelist_ref) ftn_config_error
  check (is_distinct (map (λ a. a.tag) n.areas)) ftn_config_error
  ok (record n { local_addresses = addresses })

unfoldable pub ftn_config : FtnConfig → Result Error (Unit {0})
ftn_config c = do
  check (is_distinct (map (λ n. n.network_id) c.networks)) ftn_config_error
  check (leb 1 c.listen_port && leb c.listen_port 65535) ftn_config_error
  check (all (λ n. not (is_open n)) c.networks) ftn_config_error
