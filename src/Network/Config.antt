-- ===== src/Network/Config.antt =====
-- `scripts/ubb_network.py`: the configurations of the name server and of the clock server. What
-- Python's `ipaddress` makes of a text is an argument.
use ultimate_bbsbox.Prelude.{
  String, Bool, false, not, ◌&&◌, ◌||◌, Option, none, some, List, [], ◌∷◌, ◌++◌, map, elem, ltb,
  length, codes, lower, ◌<>◌, ◌==◌, if◌then◌else◌,
}
use ultimate_bbsbox.Prelude.Exec.{Result, ok, err}
use ultimate_bbsbox.Prelude.Results.{◌>>=◌, ◌>>◌, each, check}
use ultimate_bbsbox.Errors.{Error, network_config_error}
use ultimate_bbsbox.Edge.Names.{strip_dots, is_name}
use ultimate_bbsbox.Edge.Models.{IpVersion, IpLibrary}

pub record DnsRecord : Type 0 where
  pub record_name : String
  pub record_type : String
  pub record_value : String

pub record DnsConfig : Type 0 where
  pub internal_domain : String
  pub listen : List String
  pub trusted_networks : List String
  pub recursion : Bool
  pub upstreams : List String
  pub records : List DnsRecord

pub record NtpConfig : Type 0 where
  pub mode : String
  pub trusted_networks : List String
  pub upstreams : List String

unfoldable pub domain : String → Result Error String
domain value =
    let name = strip_dots (lower value) in
    if is_name name && not (ltb 253 (length (codes name)))
    then ok name
    else err network_config_error

abbrev or_refused : Option String → Result Error String
or_refused none = err network_config_error
or_refused (some text) = ok text

abbrev first_of : Option (String × IpVersion) → Option String
first_of none = none
first_of (some (text, _)) = some text

-- `(name, typ) in names`
abbrev pub RecordKey : Type 0
RecordKey = String × String

unfoldable pub is_named : RecordKey → List RecordKey → Bool
is_named key [] = false
is_named key (old ∷ names) = key.0 == old.0 && key.1 == old.1 || is_named key names

module _ (lib : IpLibrary) where
  unfoldable pub address : String → Result Error String
  address value = or_refused (first_of (lib.ip_address value))

  unfoldable pub network : String → Result Error String
  network value = or_refused (lib.ip_network value)

  abbrev pub checked_value : String → String → Result Error String
  checked_value type value =
      if elem type ("A" ∷ "AAAA" ∷ [])
      then address value
      else (if type == "CNAME" then domain value else err network_config_error)

  -- the loop over the records, with the keys seen so far
  unfoldable pub check_records : List RecordKey → List DnsRecord → Result Error (List RecordKey)
  check_records names [] = ok names
  check_records names (r ∷ rs) = do
    name ← domain r.record_name
    check (not (is_named (name, r.record_type) names)) network_config_error
    checked_value r.record_type r.record_value
    check_records ((name, r.record_type) ∷ names) rs

  -- `DNSConfig.__post_init__`
  unfoldable pub dns_config : DnsConfig → Result Error DnsConfig
  dns_config c = do
    name ← domain c.internal_domain
    listen ← each address c.listen
    networks ← each network c.trusted_networks
    check_records [] c.records
    ok (record c { internal_domain = name; listen = listen; trusted_networks = networks })

  -- `NTPConfig.__post_init__`
  unfoldable pub ntp_config : NtpConfig → Result Error NtpConfig
  ntp_config c = do
    check (elem c.mode ("client_only" ∷ "client_and_server" ∷ [])) network_config_error
    networks ← each network c.trusted_networks
    ok (record c { trusted_networks = networks })

-- `NTPConfig.render`, by lines
unfoldable pub ntp_lines : NtpConfig → List String
ntp_lines c =
    map (λ x. "pool " <> x <> " iburst") c.upstreams
    ++ (if c.mode == "client_and_server" then map (λ x. "allow " <> x) c.trusted_networks else [])
