-- ===== src/Archive/Integrity.antt =====
-- `scripts/ubb_archive.py`: what is preserved stays as it is, and verifies.
use ultimate_bbsbox.Prelude.{
  String, true, ◌≡◌, refl, Option, none, some, length, lower, is_id, eq_refl, if◌then◌else◌,
}
use ultimate_bbsbox.Prelude.Dict.{lookup, insert, lookup-insert}
use ultimate_bbsbox.Prelude.Exec.{Result, ok, err}
use ultimate_bbsbox.Errors.{Error}
use ultimate_bbsbox.Archive.Models.{Bytes, Digests, ArtifactDocument, is_hash}
use ultimate_bbsbox.Archive.Store.{Store, is_number, is_valid, load_metadata, loaded, object_path}
use ultimate_bbsbox.Archive.Preserve.{verify_one, verified_loaded, verified_at, verified_content}

-- What `t` has of the objects of `s`: all of them, with the same bytes.
pub record Grows (s t : Store) : Type 0 where
  pub objects_kept :
      (k : String) (b : Bytes) → lookup k s.objects ≡ some b → lookup k t.objects ≡ some b
  pub metadata_kept :
      (k : String) (d : ArtifactDocument)
      → lookup k s.metadata ≡ some d
      → lookup k t.metadata ≡ some d

module _ (digests_of : Bytes → Digests) where
  -- Every object is filed under its digest, and every artifact verifies.
  pub record IsSound (s : Store) : Type 0 where
    pub filed : (k : String) (b : Bytes) → lookup k s.objects ≡ some b → (digests_of b).sha256 ≡ k
    pub verified :
        (id : String) (d : ArtifactDocument)
        → lookup id s.metadata ≡ some d
        → verify_one digests_of id s ≡ ok d

  content-grows :
      (s t : Store) (d d' : ArtifactDocument) (key : String) (o : Option Bytes)
      → ((k : String) (b : Bytes) → lookup k s.objects ≡ some b → lookup k t.objects ≡ some b)
      → lookup key s.objects ≡ o
      → verified_content digests_of d o ≡ ok d'
      → verified_content digests_of d (lookup key t.objects) ≡ ok d'
  content-grows s t d d' key none g l h = cc
  content-grows s t d d' key (some b) g l h = rw (g key b l) h

  at-grows :
      (s t : Store) (d d' : ArtifactDocument) (r : Result Error String)
      → ((k : String) (b : Bytes) → lookup k s.objects ≡ some b → lookup k t.objects ≡ some b)
      → verified_at digests_of s d r ≡ ok d'
      → verified_at digests_of t d r ≡ ok d'
  at-grows s t d d' (err e) g h = cc
  at-grows s t d d' (ok key) g h = content-grows s t d d' key (lookup key s.objects) g refl h

  loaded-grows :
      (s t : Store) (d' : ArtifactDocument) (r : Result Error ArtifactDocument)
      → ((k : String) (b : Bytes) → lookup k s.objects ≡ some b → lookup k t.objects ≡ some b)
      → verified_loaded digests_of s r ≡ ok d'
      → verified_loaded digests_of t r ≡ ok d'
  loaded-grows s t d' (err e) g h = cc
  loaded-grows s t d' (ok d) g h = at-grows s t d d' (object_path d.artifact.digests.sha256) g h

  pub verify_one-grows :
      (s t : Store) (id : String) (d : ArtifactDocument)
      → ((k : String) (b : Bytes) → lookup k s.objects ≡ some b → lookup k t.objects ≡ some b)
      → lookup id t.metadata ≡ lookup id s.metadata
      → verify_one digests_of id s ≡ ok d
      → verify_one digests_of id t ≡ ok d
  unfolding verify_one load_metadata
  verify_one-grows s t id d g same h =
      rw same (loaded-grows s t d (if is_id id then loaded (lookup id s.metadata) else _) g h)

  -- An object of the right digest and size is there.
  pub record IsThere (key : String) (bytes : Bytes) (s : Store) : Type 0 where
    pub content : Bytes
    pub there : lookup key s.objects ≡ some content
    pub size : is_number (length content) (length bytes) ≡ true

  -- A new artifact that is valid and whose object is there verifies.
  pub verify_one-insert :
      (s : Store) (id : String) (d : ArtifactDocument) (bytes : Bytes)
      → IsSound s
      → is_id id ≡ true
      → is_valid d ≡ true
      → is_hash 64 d.artifact.digests.sha256 ≡ true
      → lower d.artifact.digests.sha256 ≡ d.artifact.digests.sha256
      → d.artifact.size ≡ length bytes
      → IsThere d.artifact.digests.sha256 bytes s
      → verify_one digests_of id (record s { metadata = insert id d s.metadata }) ≡ ok d
  unfolding verify_one load_metadata object_path
  verify_one-insert s id d bytes sound i v hash low size there =
      let digest : (digests_of there.content).sha256 ≡ d.artifact.digests.sha256 =
        sound.filed _ there.content there.there in
      rw
        (
          i,
          lookup-insert id id d s.metadata,
          eq_refl id,
          v,
          hash,
          low,
          there.there,
          digest,
          eq_refl d.artifact.digests.sha256,
          size,
          there.size,
        )
        refl
