-- ===== src/Archive/Store.antt =====
-- `scripts/ubb_archive.py`: the archive on disk, its look-ups and the documents written to it. Objects are
-- filed under their digest, metadata and locks under the artifact's id, and a part in quarantine
-- under the id and the process that writes it. Hashing is not the program's own: the digests of bytes are an argument.
use ultimate_bbsbox.Prelude.{
  ℕ, ◌+◌, String, Bool, true, false, not, ◌&&◌, ◌||◌, Option, none, some, get_or, List, [], ◌∷◌,
  ◌++◌, map, length, elem, leb, ltb, lower, is_id, ◌==◌, if◌then◌else◌,
}
use ultimate_bbsbox.Prelude.Dict.{Dict, lookup, insert, keys}
use ultimate_bbsbox.Prelude.Exec.{Result, ok, err, Exec}
use ultimate_bbsbox.Errors.{Error, archive_error}
use ultimate_bbsbox.Registry.Loader.{sorted}
use ultimate_bbsbox.Archive.Models.{
  Bytes, roles, rights_statuses, preservation_classes, Digests, Provenance, Rights, Lineage,
  ArtifactDocument, is_hash, is_lineage, is_nonempty_text,
}
use ultimate_bbsbox.Archive.Filenames.{safe_filename}

pub record Store : Type 0 where
  pub ready : Bool
  pub objects : Dict Bytes
  pub metadata : Dict ArtifactDocument
  pub locks : List String
  pub quarantine : Dict Bytes

-- the arguments of an import that its code reads, and the process id as a text
pub record Ingest : Type 0 where
  pub process : String
  pub max_bytes : ℕ
  pub expected_sha256 : Option String
  pub expected_sha1 : Option String
  pub expected_md5 : Option String
  pub rights_status : String
  pub install_locally : Bool
  pub redistribute_original : Bool
  pub publish_to_bbs_filebase : Bool
  pub no_owner_export : Bool
  pub rights_evidence : Option (List String)
  pub software_family : Option String
  pub version : Option String
  pub platform : Option String

abbrev pub Op : Type 0 → Type 0
Op = Exec Store Error

abbrev is_good {ℓ} : {E A : Type ℓ} → Result E A → Bool
is_good (ok _) = true
is_good (err _) = false

abbrev pub is_number : ℕ → ℕ → Bool
is_number a b = leb a b && leb b a

-- The conditions of `validate_metadata`, in its order.
unfoldable pub is_valid : ArtifactDocument → Bool
is_valid d =
    d.kind == "artifact"
    && is_number d.schema_version 1
    && is_id d.id
    && is_hash 64 d.artifact.digests.sha256
    && elem d.artifact.role roles
    && is_good (safe_filename d.artifact.original_filename)
    && is_hash 40 d.artifact.digests.sha1
    && is_hash 32 d.artifact.digests.md5
    && is_nonempty_text d.provenance.acquired_at
    && is_nonempty_text d.provenance.source
    && elem d.rights.status rights_statuses
    && elem d.preservation_class preservation_classes
    && d.immutable
    && is_lineage d.lineage

abbrev validated_document : ArtifactDocument → Bool → Result Error ArtifactDocument
validated_document d true = ok d
validated_document d false = err archive_error

abbrev pub loaded : Option ArtifactDocument → Result Error ArtifactDocument
loaded none = err archive_error
loaded (some d) = validated_document d (is_valid d)

unfoldable pub load_metadata : String → Store → Result Error ArtifactDocument
load_metadata id s = if is_id id then loaded (lookup id s.metadata) else err archive_error

-- Where an object lies: its digest in lower case.
unfoldable pub object_path : String → Result Error String
object_path digest = if is_hash 64 digest then ok (lower digest) else err archive_error

-- `hashes_for`: the bytes that are read, chunk by chunk, up to the maximum
unfoldable pub hashes_for : ℕ → ℕ → Bytes → List (Result Error Bytes) → Result Error Bytes
hashes_for most size seen [] = ok seen
hashes_for most size seen (err e ∷ chunks) = err e
hashes_for most size seen (ok [] ∷ chunks) = ok seen
hashes_for most size seen (ok (b ∷ bs) ∷ chunks) =
    let total = size + length (b ∷ bs) in
    let rest = hashes_for most total (seen ++ b ∷ bs) chunks in
    if ltb most total then err archive_error else rest

abbrev check_hash : ℕ → String → Option String → Bool
check_hash digits actual none = true
check_hash digits actual (some wanted) =
    wanted == "" || is_hash digits wanted && lower actual == lower wanted

-- `check_expected`, whose three refusals are the same exception
unfoldable pub check_expected : Ingest → Digests → Bool
check_expected args actual =
    check_hash 64 actual.sha256 args.expected_sha256
    && check_hash 40 actual.sha1 args.expected_sha1
    && check_hash 32 actual.md5 args.expected_md5

unfoldable pub rights_document : Ingest → Rights
rights_document args = record {
  status = args.rights_status;
  preserve_locally = true;
  install_locally = args.install_locally;
  redistribute_original = args.redistribute_original;
  publish_to_bbs_filebase = args.publish_to_bbs_filebase;
  export_from_archive = not args.no_owner_export;
  evidence = get_or args.rights_evidence [];
}

abbrev is_url : String → Option String → Bool
is_url url none = false
is_url url (some u) = u == url

unfoldable pub from_source : String → String → Dict ArtifactDocument → Dict ArtifactDocument
from_source url digest [] = []
from_source url digest ((_, d) ∷ ds) =
    let rest = from_source url digest ds in
    if is_url url d.provenance.source_url && not (d.artifact.digests.sha256 == digest)
    then insert d.id d rest
    else rest

-- `source_predecessors`, each id once and in order, for a source that has an address
unfoldable pub source_predecessors : Option String → String → Dict ArtifactDocument → List String
source_predecessors none digest ds = []
source_predecessors (some url) digest ds =
    if url == "" then [] else keys (sorted (from_source url digest ds))

abbrev parents_of : Option Lineage → List String
parents_of none = []
parents_of (some l) = map (λ p. p.artifact_id) l.parents

abbrev has_prior : List String → Bool
has_prior [] = false
has_prior (_ ∷ _) = true

-- `if source: artifact[key] = source`
abbrev pub given : Option String → Option String
given none = none
given (some text) = if text == "" then none else some text

-- The document of a new artifact, from the ids that its source gave before.
unfoldable pub document_of :
    Ingest
    → String
    → List ℕ
    → Bytes
    → Digests
    → Provenance
    → String
    → String
    → Option Lineage
    → List String
    → ArtifactDocument
document_of args id name bytes digests provenance class role lineage prior = record {
  kind = "artifact";
  schema_version = 1;
  id = id;
  artifact = record {
    role = role;
    original_filename = name;
    digests = digests;
    size = length bytes;
    software_family = given args.software_family;
    version = given args.version;
    platform = given args.platform;
    derived_from = parents_of lineage;
  };
  provenance = record provenance { source_changed = has_prior prior; previous_artifacts = prior };
  rights = rights_document args;
  preservation_class = class;
  immutable = true;
  lineage = lineage;
}
