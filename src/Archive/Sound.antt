-- ===== src/Archive/Sound.antt =====
-- `preserve_stream` of `scripts/ubb_archive.py` keeps the archive sound.
use ultimate_bbsbox.Prelude.{ℕ, String, true, ◌≡◌, refl, Option, List, [], arith, lower, is_id}
use ultimate_bbsbox.Prelude.Dict.{Dict, insert}
use ultimate_bbsbox.Prelude.Exec.{
  Result, ok, Keeps, Keeps-bind, Keeps-modify, Keeps-gets, Keeps-raise_if, Keeps-lifted, modify,
}
use ultimate_bbsbox.Errors.{Error}
use ultimate_bbsbox.Archive.Models.{
  Bytes, Digests, Provenance, Lineage, ArtifactDocument, validate_id,
}
use ultimate_bbsbox.Archive.Store.{Store, Ingest, Op, document_of}
use ultimate_bbsbox.Archive.Preserve.{
  part_of, open_part, write_part, deposit, locked, released, preserve_stream,
}
use ultimate_bbsbox.Archive.Preserved.{same-IsSound, file_away-IsSound}
use ultimate_bbsbox.Archive.Integrity.{IsSound}

module _ (digests_of : Bytes → Digests) where
  part-IsSound :
      (f : Dict Bytes → Dict Bytes)
      → Keeps
          (IsSound digests_of)
          (modify {E = Error} (λ s. record s { quarantine = f s.quarantine }))
  part-IsSound f = Keeps-modify _ (λ s h. same-IsSound digests_of s _ refl refl h)

  open_part-IsSound : (id : String) → Keeps (IsSound digests_of) (open_part id)
  unfolding open_part
  open_part-IsSound id =
      Keeps-bind _ _ (Keeps-gets _)
        λ taken. Keeps-bind _ _ (Keeps-raise_if _ _) λ _. part-IsSound (insert id [])

  locked-IsSound :
      (part id : String) (m : Op ArtifactDocument)
      → Keeps (IsSound digests_of) m
      → Keeps (IsSound digests_of) (locked part id m)
  unfolding locked released
  locked-IsSound part id m k = record {
    at = λ s h.
        same-IsSound digests_of _ _ refl refl (k.at _ (same-IsSound digests_of s _ refl refl h));
  }

  module _ (lower-digest : (b : Bytes) → lower (digests_of b).sha256 ≡ (digests_of b).sha256)
      (args : Ingest) (id : String) (provenance : Provenance) (class role : String)
      (lineage : Option Lineage) (size : Option ℕ) where
    deposit-IsSound :
        (name : List ℕ) (chunks : List (Result Error Bytes))
        → is_id id ≡ true
        → Keeps
            (IsSound digests_of)
            (deposit digests_of args id name chunks provenance class role lineage size)
    unfolding deposit write_part document_of
    deposit-IsSound name chunks named = Keeps-bind _ _ (open_part-IsSound (part_of args id)) λ _.
        Keeps-lifted _ _ λ bytes _.
          Keeps-bind _ _ (part-IsSound (insert (part_of args id) bytes)) λ _.
            Keeps-bind _ _ (Keeps-raise_if _ _) λ _. Keeps-bind _ _ (Keeps-raise_if _ _) λ _.
              file_away-IsSound digests_of lower-digest (part_of args id) id bytes
                provenance.source_url _ named (λ p. refl) (λ p. refl)

    id_named : (u : Unit {0}) → validate_id id ≡ ok u → is_id id ≡ true
    unfolding validate_id
    id_named u h = ground arith

    preserving-IsSound :
        (filename : List ℕ) (chunks : List (Result Error Bytes))
        → Keeps
            (IsSound digests_of)
            (preserve_stream digests_of args id filename chunks provenance class role lineage size)
    unfolding preserve_stream
    preserving-IsSound filename chunks = Keeps-bind _ _ (Keeps-gets _) λ _.
        Keeps-bind _ _ (Keeps-raise_if _ _) λ _. Keeps-lifted _ _ λ u named.
          Keeps-lifted _ _ λ name _. Keeps-bind _ _ (Keeps-gets _) λ _.
            Keeps-bind _ _ (Keeps-raise_if _ _) λ _. Keeps-bind _ _ (Keeps-gets _) λ _.
              Keeps-bind _ _ (Keeps-raise_if _ _) λ _.
                locked-IsSound (part_of args id) id _
                  (deposit-IsSound name chunks (id_named u named))

    -- Preserving a stream, whether it succeeds or is refused, keeps the archive sound: every object
    -- lies under its own digest, and every artifact verifies. The hashes are in lower case.
    pub preserve_stream-IsSound :
        (filename : List ℕ) (chunks : List (Result Error Bytes)) (s : Store)
        → IsSound digests_of s
        → IsSound digests_of
            (preserve_stream digests_of args id filename chunks provenance class role lineage size
              s).1
    preserve_stream-IsSound filename chunks s h = (preserving-IsSound filename chunks).at s h
