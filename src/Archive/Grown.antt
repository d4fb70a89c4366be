-- ===== src/Archive/Grown.antt =====
-- `preserve_stream` of `scripts/ubb_archive.py` adds to the archive and changes nothing in it.
use ultimate_bbsbox.Prelude.{
  ℕ, String, Bool, true, false, ◌≡◌, refl, ◌∙◌, Option, none, some, List, [], ◌∷◌, arith, ◌==◌,
  eq_iff, Bool-cases, inl, inr,
}
use ultimate_bbsbox.Prelude.Dict.{Dict, lookup, insert, lookup-insert, contains}
use ultimate_bbsbox.Prelude.Exec.{
  Result, gets, raise_if, modify, ◌>>=◌, Keeps, Keeps-bind, Keeps-modify, Keeps-gets,
  Keeps-raise_if, Keeps-lift, keeps_rules,
}
use ultimate_bbsbox.Errors.{Error, duplicate_artifact}
use ultimate_bbsbox.Archive.Models.{Bytes, Digests, Provenance, Lineage, ArtifactDocument}
use ultimate_bbsbox.Archive.Store.{Store, Ingest, Op, is_valid}
use ultimate_bbsbox.Archive.Preserve.{
  open_part, write_part, found_object, kept_object, keep_object, recorded, record_artifact,
  file_away, released, locked, deposit, preserve_stream,
}
use ultimate_bbsbox.Archive.Integrity.{Grows}

-- All objects of `s` are in `t`, and all its documents but perhaps that of `id`.
record Adds (id : String) (s t : Store) : Type 0 where
  pub objects_kept :
      (k : String) (b : Bytes) → lookup k s.objects ≡ some b → lookup k t.objects ≡ some b
  pub others_kept : (k : String) → (id == k) ≡ false → lookup k t.metadata ≡ lookup k s.metadata

module _ (id : String) (s : Store) where
  part-Adds :
      (f : Dict Bytes → Dict Bytes)
      → Keeps (Adds id s) (modify {E = Error} (λ t. record t { quarantine = f t.quarantine }))
  part-Adds f =
      Keeps-modify _ (λ t h. record { objects_kept = h.objects_kept; others_kept = h.others_kept })

  open_part-Adds : (part : String) → Keeps (Adds id s) (open_part part)
  unfolding open_part
  open_part-Adds part =
      Keeps-bind _ _ (Keeps-gets _)
        λ _. Keeps-bind _ _ (Keeps-raise_if _ _) λ _. part-Adds (insert part [])

  write_part-Adds : (part : String) (bytes : Bytes) → Keeps (Adds id s) (write_part part bytes)
  unfolding write_part
  write_part-Adds part bytes = part-Adds (insert part bytes)

  kept_object-Adds :
      (part key : String) (bytes : Bytes) (t : Store) (o : Option Bytes)
      → lookup key t.objects ≡ o
      → Adds id s t
      → Adds id s (kept_object part key bytes o t).1
  kept_object-Adds part key bytes t none l h = record {
    objects_kept = λ k b f. elim (Bool-cases (key == k)) [
      | inl same ↦
          let keys : key ≡ k = ground (arith, eq_iff key k) in
          absurd (ground (arith, h.objects_kept k b f, rw keys at l))
      | inr other ↦ rw (lookup-insert key k bytes t.objects, other) (h.objects_kept k b f)
    ];
    others_kept = h.others_kept;
  }
  kept_object-Adds part key bytes t (some old) l h = found _ h
    where
      found : (b : Bool) → Adds id s t → Adds id s (found_object part b t).1
      found true h = record { objects_kept = h.objects_kept; others_kept = h.others_kept }
      found false h = h

  keep_object-Adds :
      (part key : String) (bytes : Bytes) → Keeps (Adds id s) (keep_object part key bytes)
  unfolding keep_object
  keep_object-Adds part key bytes = record {
    at = λ t h. kept_object-Adds part key bytes t (lookup key t.objects) refl h;
  }

  record_artifact-Adds : (d : ArtifactDocument) → Keeps (Adds id s) (record_artifact id d)
  unfolding record_artifact
  record_artifact-Adds d = record { at = λ t h. stored t (is_valid d) h }
    where
      stored : (t : Store) (b : Bool) → Adds id s t → Adds id s (recorded id d b t).1
      stored t false h = h
      stored t true h = record {
        objects_kept = h.objects_kept;
        others_kept =
            λ k other. rw (lookup-insert id k d t.metadata, other) (h.others_kept k other);
      }

  locked-Adds :
      (part : String) (m : Op ArtifactDocument)
      → Keeps (Adds id s) m
      → Keeps (Adds id s) (locked part id m)
  unfolding locked released
  locked-Adds part m k = record {
    at = λ t h.
        let after =
          k.at (record t { locks = id ∷ t.locks })
            (record { objects_kept = h.objects_kept; others_kept = h.others_kept }) in
        record { objects_kept = after.objects_kept; others_kept = after.others_kept };
  }

  module _ (digests_of : Bytes → Digests) (args : Ingest) (provenance : Provenance)
      (class role : String) (lineage : Option Lineage) (size : Option ℕ) where
    deposit-Adds :
        (name : List ℕ) (chunks : List (Result Error Bytes))
        → Keeps
            (Adds id s)
            (deposit digests_of args id name chunks provenance class role lineage size)
    unfolding deposit file_away
    deposit-Adds name chunks =
        search
          (keeps_rules, open_part-Adds, write_part-Adds, keep_object-Adds, record_artifact-Adds)
          depth 30

    adding :
        (filename : List ℕ) (chunks : List (Result Error Bytes))
        → Keeps
            (Adds id s)
            (preserve_stream digests_of args id filename chunks provenance class role lineage size)
    unfolding preserve_stream
    adding filename chunks = search (keeps_rules, locked-Adds, deposit-Adds) depth 30

    stopped :
        (rest : Bool → Op ArtifactDocument)
        → contains id s.metadata ≡ true
        → Keeps
            (λ t. t ≡ s)
            (gets (λ t. contains id t.metadata) >>= λ b.
              raise_if b duplicate_artifact >>= λ _. rest b)
    unfolding ◌>>=◌
    stopped rest taken = record {
      at = λ t e. let known : contains id t.metadata ≡ true = rw e taken in rw known e;
    }

    -- An id that is taken is refused before anything is changed.
    taken-refused :
        (filename : List ℕ) (chunks : List (Result Error Bytes))
        → contains id s.metadata ≡ true
        → (preserve_stream digests_of args id filename chunks provenance class role lineage size
            s).1
          ≡ s
    unfolding preserve_stream
    taken-refused filename chunks taken = refused.at s refl
      where
        refused :
            Keeps
              (λ t. t ≡ s)
              (preserve_stream digests_of args id filename chunks provenance class role lineage
                size)
        refused = Keeps-bind _ _ (Keeps-gets _) λ _. Keeps-bind _ _ (Keeps-raise_if _ _) λ _.
            Keeps-bind _ _ (Keeps-lift _) λ _. Keeps-bind _ _ (Keeps-lift _) λ _. stopped _ taken

    -- Preserving a stream, whether it succeeds or is refused, leaves every object and every document
    -- that was in the archive as it was.
    pub preserve_stream-Grows :
        (filename : List ℕ) (chunks : List (Result Error Bytes))
        → Grows s
            (preserve_stream digests_of args id filename chunks provenance class role lineage size
              s).1
    preserve_stream-Grows filename chunks =
        let after =
          (adding filename chunks).at s
            (record { objects_kept = λ k b f. f; others_kept = λ k other. refl }) in
        record {
          objects_kept = after.objects_kept;
          metadata_kept = λ k d f. elim (Bool-cases (id == k)) [
            | inl same ↦
                let ids : id ≡ k = ground (arith, eq_iff id k) in
                let taken : contains id s.metadata ≡ true = rw ids (rw f refl) in
                rw (taken-refused filename chunks taken) f
            | inr other ↦ after.others_kept k other ∙ f
          ];
        }
