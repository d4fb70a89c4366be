-- ===== src/Archive/Derived.antt =====
-- What `preserve_stream` and `derive` of `scripts/ubb_archive.py` record of an artifact.
use ultimate_bbsbox.Prelude.{
  if◌then◌else◌, ◌==◌, ℕ, String, Bool, true, false, ◌≡◌, refl, Option, some, none, List, [], ◌∷◌,
}
use ultimate_bbsbox.Prelude.Exec.{Result, ok, err, gets, lift, ◌>>=◌}
use ultimate_bbsbox.Prelude.Hoare.{Yields, Yields-bind, Yields-lifted}
use ultimate_bbsbox.Errors.{Error}
use ultimate_bbsbox.Archive.Models.{
  Bytes, Digests, Provenance, LineageParent, Lineage, ArtifactDocument,
}
use ultimate_bbsbox.Archive.Store.{Store, Ingest, Op, load_metadata, document_of, is_valid, given}
use ultimate_bbsbox.Archive.Preserve.{
  recorded, record_artifact, file_away, locked, deposit, preserve_stream,
}
use ultimate_bbsbox.Archive.Derive.{
  Derivation, parent_of, joined_to, and_then, parents_from, lineage_of, class_of, derive,
}

module _ (id class role : String) (lineage : Option Lineage) where
  abbrev IsOf : ArtifactDocument → Type 0
  IsOf d =
      (d.id ≡ id)
      × (d.lineage ≡ lineage)
      × (d.preservation_class ≡ class)
      × (d.artifact.role ≡ role)

  recorded-IsOf :
      (d : ArtifactDocument) (b : Bool) → IsOf d → Yields (recorded id d b) (λ a t. IsOf a)
  recorded-IsOf d false h = record { on = λ s a e. cc }
  recorded-IsOf d true h = record { on = λ s a e. let same : d ≡ a = cc in rw same at h }

  file_away-IsOf :
      (part : String) (bytes : Bytes) (digests : Digests) (url : Option String)
      (document : List String → ArtifactDocument)
      → ((prior : List String) → IsOf (document prior))
      → Yields (file_away part id bytes digests url document) (λ a t. IsOf a)
  unfolding file_away record_artifact
  file_away-IsOf part bytes digests url document h = Yields-lifted _ _ λ key _. Yields-bind _ _ λ _.
      Yields-bind _ _ λ prior. record {
        on = (recorded-IsOf (document prior) (is_valid (document prior)) (h prior)).on;
      }

  locked-IsOf :
      (part : String) (m : Op ArtifactDocument)
      → Yields m (λ a t. IsOf a)
      → Yields (locked part id m) (λ a t. IsOf a)
  unfolding locked
  locked-IsOf part m y = record { on = λ s a e. y.on _ a e }

  module _ (digests_of : Bytes → Digests) (args : Ingest) (provenance : Provenance)
      (size : Option ℕ) where
    deposit-IsOf :
        (name : List ℕ) (chunks : List (Result Error Bytes))
        → Yields
            (deposit digests_of args id name chunks provenance class role lineage size)
            (λ a t. IsOf a)
    unfolding deposit document_of
    deposit-IsOf name chunks = Yields-bind _ _ λ _. Yields-bind _ _ λ bytes. Yields-bind _ _ λ _.
        Yields-bind _ _
          λ _. Yields-bind _ _ λ _. file_away-IsOf _ bytes _ _ _ (λ prior. (refl, refl, refl, refl))

    pub preserve_stream-IsOf :
        (filename : List ℕ) (chunks : List (Result Error Bytes))
        → Yields
            (preserve_stream digests_of args id filename chunks provenance class role lineage size)
            (λ a t. IsOf a)
    unfolding preserve_stream
    preserve_stream-IsOf filename chunks = Yields-bind _ _ λ _. Yields-bind _ _ λ _.
        Yields-bind _ _ λ _. Yields-bind _ _ λ name. Yields-bind _ _ λ _.
          Yields-bind _ _ λ _.
            Yields-bind _ _ λ _. Yields-bind _ _ λ _. locked-IsOf _ _ (deposit-IsOf name chunks)

-- The parents of a lineage are those of a list of ids, one by one: each is in the archive, and is
-- recorded with the id and the SHA-256 of its document.
abbrev pub AreParents : Store → List String → List LineageParent → Type 0
AreParents s [] [] = Unit {0}
AreParents s [] (p ∷ ps) = ⊥
AreParents s (id ∷ ids) [] = ⊥
AreParents s (id ∷ ids) (p ∷ ps) =
    ((d : ArtifactDocument) × (load_metadata id s ≡ ok d)
      × (p.artifact_id ≡ d.id)
      × (p.parent_sha256 ≡ d.artifact.digests.sha256))
    × AreParents s ids ps

joined-AreParents :
    (s : Store) (id : String) (ids : List String) (d : ArtifactDocument)
    (r : Result Error (List LineageParent)) (found : List LineageParent)
    → load_metadata id s ≡ ok d
    → ((ps : List LineageParent) → r ≡ ok ps → AreParents s ids ps)
    → joined_to (parent_of d) r ≡ ok found
    → AreParents s (id ∷ ids) found
joined-AreParents s id ids d (err e) found l rest h = cc
joined-AreParents s id ids d (ok ps) [] l rest h = cc
joined-AreParents s id ids d (ok ps) (q ∷ qs) l rest h =
    let first : parent_of d ≡ q = cc in
    let others : ps ≡ qs = cc in
    ((d, l, rw (← first) refl, rw (← first) refl), rw others at (rest ps refl))

loaded-AreParents :
    (s : Store) (id : String) (ids : List String) (r : Result Error ArtifactDocument)
    (found : List LineageParent)
    → load_metadata id s ≡ r
    → ((ps : List LineageParent) → parents_from s ids ≡ ok ps → AreParents s ids ps)
    → and_then r (parents_from s ids) ≡ ok found
    → AreParents s (id ∷ ids) found
loaded-AreParents s id ids (err e) found l rest h = cc
loaded-AreParents s id ids (ok d) found l rest h =
    joined-AreParents s id ids d (parents_from s ids) found l rest h

parents_from-AreParents :
    (s : Store) (ids : List String) (found : List LineageParent)
    → parents_from s ids ≡ ok found
    → AreParents s ids found
unfolding parents_from
parents_from-AreParents s [] [] h = tt
parents_from-AreParents s [] (p ∷ ps) h = cc
parents_from-AreParents s (id ∷ ids) found h =
    loaded-AreParents s id ids (load_metadata id s) found refl
      (λ ps e. parents_from-AreParents s ids ps e) h

module _ (digests_of : Bytes → Digests) (terms : Derivation) (args : Ingest)
    (id time later : String) where
  after_parents :
      (s : Store) (r : Result Error (List LineageParent)) (name : List ℕ)
      (chunks : List (Result Error Bytes)) (d : ArtifactDocument)
      → parents_from s terms.parent ≡ r
      → (derive digests_of terms args id name chunks time later s).0 ≡ ok d
      → (found : List LineageParent) × AreParents s terms.parent found
        × (d.id ≡ id)
        × (d.lineage
            ≡ some (record {
              parents = found;
              action = terms.action;
              derived_at = time;
              tool = given terms.tool;
              notes = given terms.notes;
            }))
        × (d.preservation_class ≡ class_of terms.role)
        × (d.artifact.role ≡ terms.role)
  unfolding derive ◌>>=◌ gets lift lineage_of
  after_parents s (err e) name chunks d p h =
      let failed : ◌≡◌ {A = Result Error ArtifactDocument} (err e) (ok d) = rw p at h in cc
  after_parents s (ok found) name chunks d p h =
      let own =
        (preserve_stream-IsOf id (class_of terms.role) terms.role
            (some (lineage_of terms time found)) digests_of args _ none name chunks).on
          s d (rw p at h) in
      (found, parents_from-AreParents s terms.parent found p, own.0, own.1, own.2, own.3)

  -- A derivation that succeeds has found every parent in the archive, and records them, with the ids
  -- and the digests of their documents and in the order given, as the lineage of the new artifact,
  -- with the action, the time, the tool and the notes; its role is the one asked for, and its class
  -- is "reconstructed" if the role is, or else "derived".
  pub derive-lineage :
      (s : Store) (name : List ℕ) (chunks : List (Result Error Bytes)) (d : ArtifactDocument)
      → (derive digests_of terms args id name chunks time later s).0 ≡ ok d
      → (found : List LineageParent) × AreParents s terms.parent found
        × (d.id ≡ id)
        × (d.lineage
            ≡ some (record {
              parents = found;
              action = terms.action;
              derived_at = time;
              tool = given terms.tool;
              notes = given terms.notes;
            }))
        × (d.preservation_class
            ≡ (if terms.role == "reconstructed" then "reconstructed" else "derived"))
        × (d.artifact.role ≡ terms.role)
  derive-lineage s name chunks d h = after_parents s _ name chunks d refl h
