-- ===== src/Ftn/Samples.antt =====
-- FidoNet addresses and an adapter, for the tests and the witnesses.
use ultimate_bbsbox.Prelude.{true, ◌≡◌, refl, none, some, [], ◌∷◌, codes}
use ultimate_bbsbox.Prelude.Chars.{digits, int_of, is_id}
use ultimate_bbsbox.Prelude.Exec.{ok, err}
use ultimate_bbsbox.Errors.{ftn_config_error}
use ultimate_bbsbox.Ftn.Address.{
  FtnAddress, ftn_read, decimal_in, decimal, ftn_print, is_in_range, ftn_address,
}
use ultimate_bbsbox.Ftn.Addresses.{ftn_address-ftn_address}
use ultimate_bbsbox.Ftn.Config.{FtnAdapter, default_adapter, ftn_adapter, is_external}
use ultimate_bbsbox.Ftn.Adapters.{ftn_adapter-default_adapter}

normal : ftn_address (codes "002:5020/1042.07") ≡ ok (codes "2:5020/1042.7")
unfolding ftn_address ftn_read ftn_print is_in_range digits int_of decimal decimal_in
normal = refl

no_zone : ftn_address (codes "0:5020/1042") ≡ err ftn_config_error
unfolding ftn_address ftn_read ftn_print is_in_range digits int_of decimal decimal_in
no_zone = refl

ftn_address-ftn_address_example :
    (a : FtnAddress) × (ftn_read (codes "002:5020/1042.07") ≡ some a)
    × (is_in_range a ≡ true)
    × (ftn_print a ≡ codes "2:5020/1042.7")
    × (ftn_address (codes "2:5020/1042.7") ≡ ok (codes "2:5020/1042.7"))
ftn_address-ftn_address_example =
    ftn_address-ftn_address (codes "002:5020/1042.07") (codes "2:5020/1042.7") normal

abbrev tosser : FtnAdapter
tosser = record {
  adapter_service = "mystic-main";
  adapter_capabilities = "import_echomail" ∷ [];
  adapter_mode = "scheduled_exchange";
  checkpoint_ref = none;
}

ftn_adapter-default_adapter_example :
    ftn_adapter (default_adapter "mystic-main" ("import_echomail" ∷ [])) ≡ err ftn_config_error
ftn_adapter-default_adapter_example =
    ftn_adapter-default_adapter "mystic-main" ("import_echomail" ∷ [])

manual :
    ftn_adapter (record tosser { adapter_mode = "manual" })
    ≡ ok (record tosser { adapter_mode = "manual" })
unfolding ftn_adapter is_id is_external
manual = refl
