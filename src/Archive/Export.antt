-- ===== src/Archive/Export.antt =====
-- `build_export` of `scripts/ubb_archive.py`: what leaves the archive. A directory of exports has a
-- bundle under the artifact's id; the texts beside the copy, made from its document, are left out.
use ultimate_bbsbox.Prelude.{
  ℕ, String, Bool, not, ◌&&◌, ◌||◌, Option, none, some, List, if◌then◌else◌,
}
use ultimate_bbsbox.Prelude.Dict.{Dict, lookup, insert, contains}
use ultimate_bbsbox.Prelude.Exec.{
  Result, ok, err, Exec, pure, lift, gets, modify, raise_if, ◌>>=◌, ◌>>◌,
}
use ultimate_bbsbox.Errors.{Error, archive_error, os_error}
use ultimate_bbsbox.Archive.Models.{Bytes, Digests, Rights, ArtifactDocument}
use ultimate_bbsbox.Archive.Filenames.{safe_filename}
use ultimate_bbsbox.Archive.Store.{Store, object_path}
use ultimate_bbsbox.Archive.Preserve.{verify_one}

pub record Bundle : Type 0 where
  pub for_publication : Bool
  pub file_name : List ℕ
  pub content : Bytes
  pub document : ArtifactDocument

-- What the rights of an artifact allow of an export.
unfoldable pub is_allowed : Rights → Bool → Bool → Bool
is_allowed rights publication redistribution =
    (if publication then rights.publish_to_bbs_filebase else rights.export_from_archive)
    && (not redistribution || rights.redistribute_original)

abbrev pub copied : Option Bytes → Result Error Bytes
copied none = err os_error
copied (some bytes) = ok bytes

abbrev pub object_at : Store → Result Error String → Result Error Bytes
object_at s (err e) = err e
object_at s (ok key) = copied (lookup key s.objects)

-- `shutil.copyfile` of the object of a document
unfoldable pub object_of : Store → ArtifactDocument → Result Error Bytes
object_of s d = object_at s (object_path d.artifact.digests.sha256)

-- The archive is read, and the directory of exports is written.
unfoldable pub build_export :
    (Bytes → Digests) → Store → String → Bool → Bool → Exec (Dict Bundle) Error Bundle
build_export digests_of s id publication redistribution = do
  document ← lift (verify_one digests_of id s)
  raise_if (not (is_allowed document.rights publication redistribution)) archive_error
  present ← gets (contains id)
  raise_if present archive_error
  bytes ← lift (object_of s document)
  name ← lift (safe_filename document.artifact.original_filename)
  let bundle : Bundle = record {
    for_publication = publication;
    file_name = name;
    content = bytes;
    document = document;
  }
  modify (insert id bundle)
  pure bundle
