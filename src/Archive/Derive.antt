-- ===== src/Archive/Derive.antt =====
-- `derive` of `scripts/ubb_archive.py`: an artifact that is made from others. The file is opened
-- outside the model: its name and its reads are arguments.
use ultimate_bbsbox.Prelude.{
  ℕ, String, false, Option, none, some, List, [], ◌∷◌, ◌==◌, if◌then◌else◌,
}
use ultimate_bbsbox.Prelude.Exec.{Result, ok, err, lift, gets, ◌>>=◌}
use ultimate_bbsbox.Errors.{Error}
use ultimate_bbsbox.Archive.Models.{
  Bytes, Digests, Provenance, LineageParent, Lineage, ArtifactDocument,
}
use ultimate_bbsbox.Archive.Store.{Store, Ingest, Op, load_metadata, given}
use ultimate_bbsbox.Archive.Preserve.{preserve_stream}

-- the arguments of a derivation that an import has not
pub record Derivation : Type 0 where
  pub parent : List String
  pub role : String
  pub action : String
  pub tool : Option String
  pub notes : Option String

abbrev pub parent_of : ArtifactDocument → LineageParent
parent_of d = record { artifact_id = d.id; parent_sha256 = d.artifact.digests.sha256 }

abbrev pub joined_to :
    LineageParent → Result Error (List LineageParent) → Result Error (List LineageParent)
joined_to p (ok ps) = ok (p ∷ ps)
joined_to p (err e) = err e

abbrev pub and_then :
    Result Error ArtifactDocument
    → Result Error (List LineageParent)
    → Result Error (List LineageParent)
and_then (ok d) rest = joined_to (parent_of d) rest
and_then (err e) rest = err e

-- The metadata of each parent, in order; the first that does not load is the exception.
unfoldable pub parents_from : Store → List String → Result Error (List LineageParent)
parents_from s [] = ok []
parents_from s (id ∷ ids) = and_then (load_metadata id s) (parents_from s ids)

unfoldable pub lineage_of : Derivation → String → List LineageParent → Lineage
lineage_of terms time parents = record {
  parents = parents;
  action = terms.action;
  derived_at = time;
  tool = given terms.tool;
  notes = given terms.notes;
}

-- The provenance of what is made in the archive itself: it has no address.
unfoldable pub derived_provenance : Derivation → String → Provenance
derived_provenance terms time = record {
  acquired_at = time;
  source = "derived in archive";
  source_url = none;
  retrieval_method = "derived";
  source_changed = false;
  previous_artifacts = [];
  notes = given terms.notes;
}

abbrev pub class_of : String → String
class_of role = if role == "reconstructed" then "reconstructed" else "derived"

-- `now()` is read twice: the two times are arguments.
unfoldable pub derive :
    (Bytes → Digests)
    → Derivation
    → Ingest
    → String
    → List ℕ
    → List (Result Error Bytes)
    → String
    → String
    → Op ArtifactDocument
derive digests_of terms args id name chunks time later = do
  parents ← gets (λ s. parents_from s terms.parent)
  found ← lift parents
  preserve_stream digests_of args id name chunks (derived_provenance terms later)
      (class_of terms.role) terms.role (some (lineage_of terms time found)) none
