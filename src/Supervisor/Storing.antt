-- ===== src/Supervisor/Storing.antt =====
-- What survives a restart of the supervisor: `from_dict(to_dict(persist=True))`.
use ultimate_bbsbox.Prelude.{ℕ, String, ◌≡◌, refl, none, [], ◌∷◌, eq_iff, arith, if◌then◌else◌}
use ultimate_bbsbox.Prelude.Dict.{Dict, lookup}
use ultimate_bbsbox.Supervisor.Instance.{Instance, is_durable, durable_holds, to_saved, from_saved}

lookup-durable_holds :
    (k : String) (d : Dict ℕ)
    → lookup k (durable_holds d) ≡ (if is_durable k then lookup k d else none)
unfolding durable_holds lookup
lookup-durable_holds k [] = ground arith
lookup-durable_holds k ((j, n) ∷ d) = ground (arith, eq_iff j k, lookup-durable_holds k d)

durable_holds-durable_holds : (d : Dict ℕ) → durable_holds (durable_holds d) ≡ durable_holds d
unfolding durable_holds
durable_holds-durable_holds [] = refl
durable_holds-durable_holds ((j, n) ∷ d) = ground (arith, durable_holds-durable_holds d)

-- An instance that was saved and loaded is the one that was saved without its sessions and with only
-- its holds for "admin" and "always_on", which keep their counts.
pub from_saved-to_saved :
    (i : Instance) (k : String)
    → (from_saved (to_saved i)
        ≡ record i { holds = (from_saved (to_saved i)).holds; sessions = [] })
      × (lookup k (from_saved (to_saved i)).holds
          ≡ (if is_durable k then lookup k i.holds else none))
unfolding from_saved to_saved
from_saved-to_saved i k =
    (refl, rw (durable_holds-durable_holds i.holds) (lookup-durable_holds k i.holds))

-- Saving what was loaded writes the document again, but for the count of the sessions that are gone.
pub to_saved-from_saved :
    (i : Instance)
    → to_saved (from_saved (to_saved i)) ≡ record (to_saved i) { active_session_count = 0 }
unfolding from_saved to_saved
to_saved-from_saved i = simp durable_holds-durable_holds
