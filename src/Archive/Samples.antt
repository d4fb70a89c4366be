-- ===== src/Archive/Samples.antt =====
-- An archive with one artifact, for the tests and the witnesses. A digest of so many digits that
-- counts the bytes stands for the hashes.
use ultimate_bbsbox.Prelude.{
  ℕ, ◌≤◌, String, true, false, ◌≡◌, refl, none, some, List, [], ◌∷◌, all, length, codes,
}
use ultimate_bbsbox.Prelude.Chars.{is_id, lower}
use ultimate_bbsbox.Prelude.Dict.{lookup, insert, erase, keys}
use ultimate_bbsbox.Prelude.Exec.{Result, ok, lift, gets, modify, raise_if, pure, ◌>>=◌}
use ultimate_bbsbox.Errors.{Error}
use ultimate_bbsbox.Registry.Loader.{sorted}
use ultimate_bbsbox.Archive.Models.{
  Bytes, Digests, Provenance, LineageParent, ArtifactDocument, is_hash, validate_id, is_lineage,
}
use ultimate_bbsbox.Archive.Filenames.{
  is_dots, is_kept, safe_filename, base_name, clean_name, after_last, take_chars,
}
use ultimate_bbsbox.Prelude.Chars.{strip_left, strip_right}
use ultimate_bbsbox.Archive.SafeNames.{safe_filename-is_kept}
use ultimate_bbsbox.Archive.Store.{
  Store, Ingest, is_valid, load_metadata, object_path, hashes_for, check_expected, given,
  source_predecessors, from_source, rights_document, document_of,
}
use ultimate_bbsbox.Archive.Preserve.{
  open_part, write_part, keep_object, record_artifact, file_away, released, locked, deposit,
  preserve_stream, verify_one,
}
use ultimate_bbsbox.Archive.Integrity.{Grows, IsSound}
use ultimate_bbsbox.Archive.Sound.{preserve_stream-IsSound}
use ultimate_bbsbox.Archive.Grown.{preserve_stream-Grows}
use ultimate_bbsbox.Archive.Derive.{
  Derivation, parents_from, lineage_of, derived_provenance, class_of, derive,
}
use ultimate_bbsbox.Archive.Derived.{AreParents, derive-lineage}
use ultimate_bbsbox.Archive.Export.{Bundle, is_allowed, object_of, build_export}
use ultimate_bbsbox.Archive.Exported.{IsGranted, build_export-IsGranted}

abbrev digest_32 : String
digest_32 = "0123456789abcdef0123456789abcdef"

abbrev digest_40 : String
digest_40 = "0123456789abcdef0123456789abcdef01234567"

abbrev digest_64 : String
digest_64 = "0123456789abcdef0123456789abcdef0123456789abcdef0123456789abcdef"

abbrev digests : Bytes → Digests
digests _ = record { sha256 = digest_64; sha1 = digest_40; md5 = digest_32 }

digests-lower : (b : Bytes) → lower (digests b).sha256 ≡ (digests b).sha256
unfolding lower
digests-lower b = refl

abbrev empty : Store
empty = record { ready = true; objects = []; metadata = []; locks = []; quarantine = [] }

empty-IsSound : IsSound digests empty
unfolding lookup
empty-IsSound = record { filed = λ k b h. cc; verified = λ id d h. cc }

abbrev args : Ingest
args = record {
  process = "4711";
  max_bytes = 100;
  expected_sha256 = none;
  expected_sha1 = none;
  expected_md5 = none;
  rights_status = "freeware";
  install_locally = true;
  redistribute_original = false;
  publish_to_bbs_filebase = false;
  no_owner_export = false;
  rights_evidence = none;
  software_family = none;
  version = none;
  platform = none;
}

abbrev provenance : Provenance
provenance = record {
  acquired_at = "2026-01-01T00:00:00Z";
  source = "disk";
  source_url = some "https://example.org/door.lha";
  retrieval_method = "local_file";
  source_changed = false;
  previous_artifacts = [];
  notes = none;
}

abbrev chunks : List (Result Error Bytes)
chunks = ok (1 ∷ 2 ∷ []) ∷ ok (3 ∷ []) ∷ []

-- `..\door.lha`
abbrev upload : List ℕ
upload = codes "..\\door.lha"

kept : Result Error ArtifactDocument × Store
kept =
    preserve_stream digests args "door" upload chunks provenance "original" "preservation_original"
      none (some 3) empty

kept-files : keys kept.1.metadata ≡ "door" ∷ []
unfolding kept preserve_stream locked released deposit open_part write_part keep_object
    record_artifact file_away hashes_for check_expected source_predecessors document_of
    rights_document is_valid from_source sorted object_path is_hash validate_id is_id is_lineage
    lower safe_filename base_name clean_name after_last strip_left strip_right take_chars lookup
    insert erase keys ◌>>=◌ modify gets lift raise_if
kept-files = refl

preserve_stream-IsSound_example : IsSound digests kept.1
unfolding kept
preserve_stream-IsSound_example =
    preserve_stream-IsSound digests digests-lower args "door" provenance "original"
      "preservation_original" none (some 3) upload chunks empty empty-IsSound

-- The id is taken the second time.
preserve_stream-Grows_example :
    Grows kept.1
      (preserve_stream digests args "door" upload chunks provenance "original"
        "preservation_original" none
        (some 3)
        kept.1).1
preserve_stream-Grows_example =
    preserve_stream-Grows "door" kept.1 digests args provenance "original" "preservation_original"
      none (some 3) upload chunks

uploaded : safe_filename upload ≡ ok (codes "door.lha")
unfolding safe_filename base_name clean_name after_last strip_left strip_right take_chars
uploaded = refl

safe_filename-is_kept_example :
    (is_dots (codes "door.lha") ≡ false)
    × (all is_kept (codes "door.lha") ≡ true)
    × (length (codes "door.lha") ≤ 255)
safe_filename-is_kept_example = safe_filename-is_kept upload (codes "door.lha") uploaded

the_bundle : Bundle
the_bundle = record {
  for_publication = false;
  file_name = codes "door.lha";
  content = 1 ∷ 2 ∷ 3 ∷ [];
  document =
      document_of args "door" (codes "door.lha") (1 ∷ 2 ∷ 3 ∷ []) (digests []) provenance "original"
        "preservation_original" none [];
}

exported : (build_export digests kept.1 "door" false false []).0 ≡ ok the_bundle
unfolding the_bundle build_export verify_one load_metadata object_of is_allowed pure kept
    preserve_stream locked released deposit open_part write_part keep_object record_artifact
    file_away hashes_for check_expected source_predecessors document_of rights_document is_valid
    from_source sorted object_path is_hash validate_id is_id is_lineage lower safe_filename
    base_name clean_name after_last strip_left strip_right take_chars lookup insert erase keys ◌>>=◌
    modify gets lift raise_if
exported = refl

build_export-IsGranted_example :
    (verify_one digests "door" kept.1 ≡ ok the_bundle.document)
    × IsGranted the_bundle.document.rights false false
    × ((digests the_bundle.content).sha256 ≡ the_bundle.document.artifact.digests.sha256)
build_export-IsGranted_example =
    build_export-IsGranted digests kept.1 "door" false false [] the_bundle exported

abbrev terms : Derivation
terms = record {
  parent = "door" ∷ [];
  role = "derived";
  action = "unpack";
  tool = none;
  notes = none;
}

abbrev made : List (Result Error Bytes)
made = ok (4 ∷ 5 ∷ 6 ∷ []) ∷ []

abbrev parents : List LineageParent
parents = record { artifact_id = "door"; parent_sha256 = digest_64 } ∷ []

derived : Result Error ArtifactDocument
derived = (derive digests terms args "tool" (codes "tool") made "t" "t" kept.1).0

abbrev derived_document : ArtifactDocument
derived_document =
    document_of args "tool" (codes "tool") (4 ∷ 5 ∷ 6 ∷ []) (digests [])
      (derived_provenance terms "t") "derived" "derived" (some (lineage_of terms "t" parents)) []

derived_ok : derived ≡ ok derived_document
unfolding derived derive parents_from lineage_of derived_provenance load_metadata kept
    preserve_stream locked released deposit open_part write_part keep_object record_artifact
    file_away hashes_for check_expected source_predecessors document_of rights_document is_valid
    from_source sorted object_path is_hash validate_id is_id is_lineage lower safe_filename
    base_name clean_name after_last strip_left strip_right take_chars lookup insert erase keys ◌>>=◌
    modify gets lift raise_if
derived_ok = refl

derive-lineage_example :
    (found : List LineageParent) × AreParents kept.1 terms.parent found
    × (derived_document.id ≡ "tool")
    × (derived_document.lineage
        ≡ some (record {
          parents = found;
          action = terms.action;
          derived_at = "t";
          tool = given terms.tool;
          notes = given terms.notes;
        }))
    × (derived_document.preservation_class ≡ class_of terms.role)
    × (derived_document.artifact.role ≡ terms.role)
unfolding derived
derive-lineage_example =
    derive-lineage digests terms args "tool" "t" "t" kept.1 (codes "tool") made derived_document
      derived_ok
