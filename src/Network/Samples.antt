-- ===== src/Network/Samples.antt =====
-- Dependencies and name-server records, for the tests and the witnesses.
use ultimate_bbsbox.Prelude.{String, true, ◌≡◌, ◌⊎◌, refl, some, [], ◌∷◌, arith}
use ultimate_bbsbox.Prelude.Chars.{lower}
use ultimate_bbsbox.Prelude.Dict.{lookup, keys}
use ultimate_bbsbox.Prelude.Every.{Pairwise}
use ultimate_bbsbox.Prelude.Exec.{ok, err}
use ultimate_bbsbox.Errors.{network_hardening_error}
use ultimate_bbsbox.Edge.Names.{strip_dots, split_dots, is_label, is_name}
use ultimate_bbsbox.Edge.Models.{IpLibrary, v4}
use ultimate_bbsbox.Network.Config.{
  DnsConfig, domain, is_named, address, network, check_records, dns_config, ntp_lines,
}
use ultimate_bbsbox.Network.Records.{IsDistinctFrom, dns_config-Pairwise}
use ultimate_bbsbox.Network.Inventory.{Graph, Walk, visit, visit_all, visit_each, check_cycles}
use ultimate_bbsbox.Network.Graph.{Reaches}
use ultimate_bbsbox.Network.Acyclic.{check_cycles-acyclic}

abbrev ip_library : IpLibrary
ip_library = record { ip_address = λ a. some (a, v4); ip_network = λ a. some a }

abbrev dns : DnsConfig
dns = record {
  internal_domain = "ubb.internal";
  listen = "127.0.0.1" ∷ [];
  trusted_networks = [];
  recursion = true;
  upstreams = [];
  records =
      record { record_name = "box.ubb.internal"; record_type = "A"; record_value = "10.0.0.1" }
      ∷ record { record_name = "BBS.ubb.internal."; record_type = "A"; record_value = "10.0.0.2" }
      ∷ [];
}

abbrev dns_kept : DnsConfig
dns_kept = dns

dns_accepted : dns_config ip_library dns ≡ ok dns_kept
unfolding dns_config domain address network check_records is_named strip_dots split_dots is_label
    is_name lower
dns_accepted = refl

dns_config-Pairwise_example : Pairwise IsDistinctFrom dns.records
dns_config-Pairwise_example = dns_config-Pairwise ip_library dns dns_kept dns_accepted

only_client :
    ntp_lines (record {
      mode = "client_only";
      trusted_networks = "127.0.0.0/8" ∷ [];
      upstreams = "pool.ntp.org" ∷ [];
    })
    ≡ "pool pool.ntp.org iburst" ∷ []
unfolding ntp_lines
only_client = refl

abbrev services : Graph
services = ("mail", "dns" ∷ "edge" ∷ []) ∷ ("news", "dns" ∷ []) ∷ ("dns", []) ∷ []

abbrev knot : Graph
knot = ("mail", "news" ∷ []) ∷ ("news", "dns" ∷ "mail" ∷ []) ∷ ("dns", []) ∷ []

knotted : check_cycles 4 knot ≡ err network_hardening_error
unfolding check_cycles visit_each visit visit_all lookup keys
knotted = refl

check_cycles-acyclic_example :
    ((w : Walk) × (check_cycles 4 services ≡ ok w) × ((n : String) → Reaches services n n → ⊥))
    ⊎ ((n : String) × Reaches services n n
        × (check_cycles 4 services ≡ err network_hardening_error))
check_cycles-acyclic_example = check_cycles-acyclic services 4 (omega arith)
