-- ===== src/Archive/Exported.antt =====
-- What `build_export` of `scripts/ubb_archive.py` lets out.
use ultimate_bbsbox.Prelude.{
  String, Bool, true, false, not, ◌&&◌, ◌≡◌, refl, Option, none, some, arith, ◌==◌, eq_iff,
  if◌then◌else◌, length,
}
use ultimate_bbsbox.Prelude.Dict.{Dict, lookup}
use ultimate_bbsbox.Prelude.Exec.{Result, ok, err, pure}
use ultimate_bbsbox.Prelude.Hoare.{Yields, Yields-bind, Yields-lifted, Yields-checked}
use ultimate_bbsbox.Errors.{Error}
use ultimate_bbsbox.Archive.Models.{Bytes, Digests, Rights, ArtifactDocument}
use ultimate_bbsbox.Archive.Store.{Store, is_number, object_path, load_metadata}
use ultimate_bbsbox.Archive.Preserve.{verify_one, verified_loaded, verified_at, verified_content}
use ultimate_bbsbox.Archive.Export.{Bundle, is_allowed, copied, object_at, object_of, build_export}

-- The rights that an export needs: to publish or else to export, and to redistribute if it is asked for.
pub data IsGranted (rights : Rights) : Bool → Bool → Type 0 where
  to_publish : rights.publish_to_bbs_filebase ≡ true → IsGranted rights true false
  to_export : rights.export_from_archive ≡ true → IsGranted rights false false
  to_publish_original :
      rights.publish_to_bbs_filebase ≡ true
      → rights.redistribute_original ≡ true
      → IsGranted rights true true
  to_export_original :
      rights.export_from_archive ≡ true
      → rights.redistribute_original ≡ true
      → IsGranted rights false true

is_allowed-IsGranted :
    (rights : Rights) (publication redistribution : Bool)
    → is_allowed rights publication redistribution ≡ true
    → IsGranted rights publication redistribution
unfolding is_allowed
is_allowed-IsGranted rights true true h = to_publish_original (ground arith) (ground arith)
is_allowed-IsGranted rights true false h = to_publish (ground arith)
is_allowed-IsGranted rights false true h = to_export_original (ground arith) (ground arith)
is_allowed-IsGranted rights false false h = to_export (ground arith)

module _ (digests_of : Bytes → Digests) (s : Store) where
  decided :
      (p q : Bool) (e : Error) (d d' : ArtifactDocument)
      → (if p && q then ok d else err e) ≡ ok d'
      → (p ≡ true) × (d ≡ d')
  decided true true e d d' h = (refl, cc)
  decided true false e d d' h = cc
  decided false q e d d' h = cc

  -- The object that a verification has read.
  record Verified (d d' : ArtifactDocument) (r : Result Error Bytes) : Type 0 where
    content : Bytes
    read : r ≡ ok content
    digest : (digests_of content).sha256 ≡ d.artifact.digests.sha256
    same : d ≡ d'

  content-Verified :
      (d d' : ArtifactDocument) (o : Option Bytes)
      → verified_content digests_of d o ≡ ok d'
      → Verified d d' (copied o)
  content-Verified d d' none h = cc
  content-Verified d d' (some b) h =
      let (p, same) =
        decided ((digests_of b).sha256 == d.artifact.digests.sha256)
          (is_number (length b) d.artifact.size) _ d d' h in
      record {
        content = b;
        read = refl;
        digest = ground (arith, eq_iff (digests_of b).sha256 d.artifact.digests.sha256, p);
        same = same;
      }

  at-Verified :
      (d d' : ArtifactDocument) (r : Result Error String)
      → verified_at digests_of s d r ≡ ok d'
      → Verified d d' (object_at s r)
  at-Verified d d' (err e) h = cc
  at-Verified d d' (ok key) h = content-Verified d d' (lookup key s.objects) h

  loaded-Verified :
      (r : Result Error ArtifactDocument) (d' : ArtifactDocument)
      → verified_loaded digests_of s r ≡ ok d'
      → Verified d' d' (object_of s d')
  unfolding object_of
  loaded-Verified (err e) d' h = cc
  loaded-Verified (ok d) d' h =
      let v = at-Verified d d' (object_path d.artifact.digests.sha256) h in
      let own : Verified d d (object_of s d) = record {
        content = v.content;
        read = v.read;
        digest = v.digest;
        same = refl;
      } in
      rw v.same at own

  object-digest :
      (id : String) (d : ArtifactDocument) (bytes : Bytes)
      → verify_one digests_of id s ≡ ok d
      → object_of s d ≡ ok bytes
      → (digests_of bytes).sha256 ≡ d.artifact.digests.sha256
  unfolding verify_one
  object-digest id d bytes h o =
      let v = loaded-Verified (load_metadata id s) d h in
      let contents : v.content ≡ bytes = cc (v.read, o) in rw contents at v.digest

  IsLetOut : String → Bool → Bool → Bundle → Type 0
  IsLetOut id publication redistribution bundle =
      (verify_one digests_of id s ≡ ok bundle.document)
      × IsGranted bundle.document.rights publication redistribution
      × ((digests_of bundle.content).sha256 ≡ bundle.document.artifact.digests.sha256)

  granted : (b : Bool) → not b ≡ false → b ≡ true
  granted true h = refl
  granted false h = cc

  answered :
      (id : String) (publication redistribution : Bool) (bundle : Bundle)
      → verify_one digests_of id s ≡ ok bundle.document
      → IsGranted bundle.document.rights publication redistribution
      → (digests_of bundle.content).sha256 ≡ bundle.document.artifact.digests.sha256
      → Yields
          (pure {S = Dict Bundle} {E = Error} bundle)
          (λ b out. IsLetOut id publication redistribution b)
  unfolding pure IsLetOut
  answered id publication redistribution bundle v a g = record {
    on = λ out b e.
        let own : IsLetOut id publication redistribution bundle = (v, a, g) in
        let same : bundle ≡ b = cc in rw same at own;
  }

  built :
      (id : String) (publication redistribution : Bool)
      → Yields
          (build_export digests_of s id publication redistribution)
          (λ bundle out. IsLetOut id publication redistribution bundle)
  unfolding build_export IsLetOut
  built id publication redistribution = Yields-lifted _ _ λ d v. Yields-checked _ _ _ λ allowed.
      Yields-bind _ _ λ present. Yields-bind _ _ λ _. Yields-lifted _ _ λ bytes o.
        Yields-lifted _ _ λ name _. Yields-bind _ _ λ _.
          answered id publication redistribution _ v
            (is_allowed-IsGranted d.rights publication redistribution (granted _ allowed))
            (object-digest id d bytes v o)

  -- An export that is built is of an artifact that verifies, and its content has the digest that the
  -- artifact's document records. The document grants the right to publish, if it is a publication,
  -- or else the right to export, and the right to redistribute the original, if that is asked for.
  pub build_export-IsGranted :
      (id : String) (publication redistribution : Bool) (out : Dict Bundle) (bundle : Bundle)
      → (build_export digests_of s id publication redistribution out).0 ≡ ok bundle
      → (verify_one digests_of id s ≡ ok bundle.document)
        × IsGranted bundle.document.rights publication redistribution
        × ((digests_of bundle.content).sha256 ≡ bundle.document.artifact.digests.sha256)
  unfolding IsLetOut
  build_export-IsGranted id publication redistribution out bundle h =
      (built id publication redistribution).on out bundle h
