-- ===== src/Ftn/Adapters.antt =====
-- `FTNAdapter` of `scripts/ubb_ftn.py`: the mode that it has when none is given.
use ultimate_bbsbox.Prelude.{String, Bool, true, false, ◌≡◌, refl, List, elem}
use ultimate_bbsbox.Prelude.Exec.{ok, err}
use ultimate_bbsbox.Prelude.Results.{◌>>◌, check}
use ultimate_bbsbox.Errors.{ftn_config_error}
use ultimate_bbsbox.Ftn.Config.{FtnAdapter, default_adapter, poll_policies, ftn_adapter}

scheduled_unknown : (mode : String) → mode ≡ "scheduled_exchange" → elem mode poll_policies ≡ false
scheduled_unknown mode h = rw h refl

refused :
    (a b c d : Bool) (x : FtnAdapter)
    → c ≡ false
    → (check a ftn_config_error
        >> (check b ftn_config_error
            >> (check c ftn_config_error >> (check d ftn_config_error >> ok x))))
      ≡ err ftn_config_error
refused false b c d x h = refl
refused true false c d x h = refl
refused true true c d x h = rw h refl

-- An adapter that is made with the class's own default for its mode is refused, whatever its service
-- and its capabilities are.
pub ftn_adapter-default_adapter :
    (service : String) (capabilities : List String)
    → ftn_adapter (default_adapter service capabilities) ≡ err ftn_config_error
unfolding ftn_adapter default_adapter
ftn_adapter-default_adapter service capabilities =
    refused _ _ (elem "scheduled_exchange" poll_policies) true
      (default_adapter service capabilities) (scheduled_unknown "scheduled_exchange" refl)
