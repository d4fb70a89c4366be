-- ===== src/Archive/Models.antt =====
-- `scripts/ubb_archive.py`: the documents of the preservation archive and their validation. Bytes
-- are numbers, and a document has its fields with the types that the validation asks for.
use ultimate_bbsbox.Prelude.{
  ℕ, String, Bool, true, false, not, ◌&&◌, Option, none, some, List, [], ◌∷◌, all, leb, length,
  codes, is_hex, is_id, ◌==◌, if◌then◌else◌,
}
use ultimate_bbsbox.Prelude.Exec.{Result, ok, err}
use ultimate_bbsbox.Errors.{Error, archive_error}

abbrev pub Bytes : Type 0
Bytes = List ℕ

abbrev pub roles : List String
roles =
    "preservation_original" ∷ "source_code" ∷ "documentation" ∷ "install_source"
    ∷ "derived_install_media" ∷ "bbs_distribution" ∷ "reconstructed" ∷ "derived" ∷ []

abbrev pub rights_statuses : List String
rights_statuses =
    "unknown" ∷ "public_domain" ∷ "open_source" ∷ "freeware" ∷ "shareware"
    ∷ "freeware_redistributable" ∷ "shareware_redistributable" ∷ "commercial" ∷ "licensed"
    ∷ "licensed_private" ∷ "preservation_only" ∷ "restricted" ∷ []

abbrev pub preservation_classes : List String
preservation_classes = "original" ∷ "reconstructed" ∷ "derived" ∷ "private_preservation" ∷ []

pub record Digests : Type 0 where
  pub sha256 : String
  pub sha1 : String
  pub md5 : String

pub record Artifact : Type 0 where
  pub role : String
  pub original_filename : List ℕ
  pub digests : Digests
  pub size : ℕ
  pub software_family : Option String
  pub version : Option String
  pub platform : Option String
  pub derived_from : List String

pub record Provenance : Type 0 where
  pub acquired_at : String
  pub source : String
  pub source_url : Option String
  pub retrieval_method : String
  pub source_changed : Bool
  pub previous_artifacts : List String
  pub notes : Option String

pub record Rights : Type 0 where
  pub status : String
  pub preserve_locally : Bool
  pub install_locally : Bool
  pub redistribute_original : Bool
  pub publish_to_bbs_filebase : Bool
  pub export_from_archive : Bool
  pub evidence : List String

pub record LineageParent : Type 0 where
  pub artifact_id : String
  pub parent_sha256 : String

pub record Lineage : Type 0 where
  pub parents : List LineageParent
  pub action : String
  pub derived_at : String
  pub tool : Option String
  pub notes : Option String

pub record ArtifactDocument : Type 0 where
  pub kind : String
  pub schema_version : ℕ
  pub id : String
  pub artifact : Artifact
  pub provenance : Provenance
  pub rights : Rights
  pub preservation_class : String
  pub immutable : Bool
  pub lineage : Option Lineage

-- `HASH_RE[name].fullmatch`, of a hash of so many digits
unfoldable pub is_hash : ℕ → String → Bool
is_hash digits text =
    let cs = codes text in all is_hex cs && leb (length cs) digits && leb digits (length cs)

unfoldable pub validate_id : String → Result Error (Unit {0})
validate_id value = if is_id value then ok tt else err archive_error

abbrev pub is_parent : LineageParent → Bool
is_parent p = is_id p.artifact_id && is_hash 64 p.parent_sha256

abbrev pub is_nonempty_text : String → Bool
is_nonempty_text text = not (text == "")

abbrev pub has_parents : List LineageParent → Bool
has_parents [] = false
has_parents (_ ∷ _) = true

unfoldable pub is_lineage : Option Lineage → Bool
is_lineage none = true
is_lineage (some l) =
    has_parents l.parents
    && is_nonempty_text l.action
    && is_nonempty_text l.derived_at
    && all is_parent l.parents
