-- ===== src/Archive/Preserve.antt =====
-- `preserve_stream` and `verify_one` of `scripts/ubb_archive.py`. Hashing is not the program's own:
-- the digests of bytes are an argument.
use ultimate_bbsbox.Prelude.{
  ℕ, String, Bool, true, false, not, ◌&&◌, Option, none, some, List, [], ◌∷◌, length, elem, discard,
  ◌==◌, ◌<>◌, if◌then◌else◌,
}
use ultimate_bbsbox.Prelude.Dict.{lookup, insert, erase, contains}
use ultimate_bbsbox.Archive.Store.{
  Store, Ingest, Op, is_number, is_valid, load_metadata, object_path, hashes_for, check_expected,
  source_predecessors, document_of,
}
use ultimate_bbsbox.Prelude.Exec.{Result, ok, err, lift, gets, modify, raise_if, ◌>>=◌, ◌>>◌}
use ultimate_bbsbox.Errors.{Error, archive_error, duplicate_artifact, verification_error, os_error}
use ultimate_bbsbox.Archive.Models.{
  Bytes, Digests, Provenance, Lineage, ArtifactDocument, validate_id,
}
use ultimate_bbsbox.Archive.Filenames.{safe_filename}

-- `f"{artifact_id}.{os.getpid()}.part"`
abbrev pub part_of : Ingest → String → String
part_of args id = id <> "." <> args.process <> ".part"

-- `open("xb")`
unfoldable pub open_part : String → Op (Unit {0})
open_part part = do
  taken ← gets (λ s. contains part s.quarantine)
  raise_if taken os_error
  modify (λ s. record s { quarantine = insert part [] s.quarantine })

unfoldable pub write_part : String → Bytes → Op (Unit {0})
write_part part bytes = modify (λ s. record s { quarantine = insert part bytes s.quarantine })

-- An object of that digest is there: it must have the same size.
abbrev pub found_object : String → Bool → Op (Unit {0})
found_object part true s = (ok tt, record s { quarantine = erase part s.quarantine })
found_object part false s = (err archive_error, s)

abbrev pub kept_object : String → String → Bytes → Option Bytes → Op (Unit {0})
kept_object part key bytes none s =
    (ok tt, record s { objects = insert key bytes s.objects; quarantine = erase part s.quarantine })
kept_object part key bytes (some old) s =
    found_object part (is_number (length old) (length bytes)) s

-- The object is linked from quarantine, or found there already.
unfoldable pub keep_object : String → String → Bytes → Op (Unit {0})
keep_object part key bytes s = kept_object part key bytes (lookup key s.objects) s

abbrev pub recorded : String → ArtifactDocument → Bool → Op ArtifactDocument
recorded id d false s = (err archive_error, s)
recorded id d true s = (ok d, record s { metadata = insert id d s.metadata })

-- `validate_metadata(document); atomic_json(meta_path, document)`
unfoldable pub record_artifact : String → ArtifactDocument → Op ArtifactDocument
record_artifact id d s = recorded id d (is_valid d) s

-- The object first, then the document, which refers to it.
unfoldable pub file_away :
    String
    → String
    → Bytes
    → Digests
    → Option String
    → (List String → ArtifactDocument)
    → Op ArtifactDocument
file_away part id bytes digests url document = do
  key ← lift (object_path digests.sha256)
  keep_object part key bytes
  prior ← gets (λ s. source_predecessors url digests.sha256 s.metadata)
  record_artifact id (document prior)

abbrev is_size : Option ℕ → ℕ → Bool
is_size none size = true
is_size (some n) size = is_number n size

-- The `finally` of `preserve_stream`: the part and the lock are removed, whatever happened.
unfoldable pub released : String → String → Store → Store
released part id s = record s { quarantine = erase part s.quarantine; locks = discard id s.locks }

unfoldable pub locked : String → String → Op ArtifactDocument → Op ArtifactDocument
locked part id m s = let (r, s') = m (record s { locks = id ∷ s.locks }) in (r, released part id s')

module _ (digests_of : Bytes → Digests) where
  -- the body of the `try`
  unfoldable pub deposit :
      Ingest
      → String
      → List ℕ
      → List (Result Error Bytes)
      → Provenance
      → String
      → String
      → Option Lineage
      → Option ℕ
      → Op ArtifactDocument
  deposit args id name chunks provenance class role lineage expected_size = do
    open_part (part_of args id)
    bytes ← lift (hashes_for args.max_bytes 0 [] chunks)
    write_part (part_of args id) bytes
    raise_if (not (is_size expected_size (length bytes))) archive_error
    raise_if (not (check_expected args (digests_of bytes))) archive_error
    file_away (part_of args id) id bytes (digests_of bytes) provenance.source_url
        (document_of args id name bytes (digests_of bytes) provenance class role lineage)

  unfoldable pub preserve_stream :
      Ingest
      → String
      → List ℕ
      → List (Result Error Bytes)
      → Provenance
      → String
      → String
      → Option Lineage
      → Option ℕ
      → Op ArtifactDocument
  preserve_stream args id filename chunks provenance class role lineage expected_size = do
    ready ← gets (λ s. s.ready)
    raise_if (not ready) archive_error
    lift (validate_id id)
    name ← lift (safe_filename filename)
    taken ← gets (λ s. contains id s.metadata)
    raise_if taken duplicate_artifact
    busy ← gets (λ s. elem id s.locks)
    raise_if busy duplicate_artifact
    locked (part_of args id) id
        (deposit args id name chunks provenance class role lineage expected_size)

  abbrev pub verified_content : ArtifactDocument → Option Bytes → Result Error ArtifactDocument
  verified_content d none = err verification_error
  verified_content d (some bytes) =
      if (digests_of bytes).sha256 == d.artifact.digests.sha256
        && is_number (length bytes) d.artifact.size
      then ok d
      else err verification_error

  abbrev pub verified_at :
      Store → ArtifactDocument → Result Error String → Result Error ArtifactDocument
  verified_at s d (err e) = err e
  verified_at s d (ok key) = verified_content d (lookup key s.objects)

  abbrev pub verified_loaded : Store → Result Error ArtifactDocument → Result Error ArtifactDocument
  verified_loaded s (err e) = err e
  verified_loaded s (ok d) = verified_at s d (object_path d.artifact.digests.sha256)

  unfoldable pub verify_one : String → Store → Result Error ArtifactDocument
  verify_one id s = verified_loaded s (load_metadata id s)
