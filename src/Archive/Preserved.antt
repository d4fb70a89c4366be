-- ===== src/Archive/Preserved.antt =====
-- `file_away`, the end of `preserve_stream` of `scripts/ubb_archive.py`, keeps the archive sound.
use ultimate_bbsbox.Prelude.{
  ℕ, String, Bool, true, false, ◌≡◌, refl, Option, none, some, List, arith, length, lower, is_id,
  ◌==◌, eq_iff, eq_refl, if◌then◌else◌, Bool-cases, inl, inr,
}
use ultimate_bbsbox.Prelude.Dict.{lookup, insert, lookup-insert}
use ultimate_bbsbox.Prelude.Exec.{ok, err, lift, gets, ◌>>=◌, Keeps}
use ultimate_bbsbox.Errors.{archive_error}
use ultimate_bbsbox.Archive.Models.{Bytes, Digests, ArtifactDocument, is_hash}
use ultimate_bbsbox.Archive.Store.{Store, is_number, is_valid, object_path, source_predecessors}
use ultimate_bbsbox.Archive.Preserve.{
  found_object, kept_object, keep_object, recorded, record_artifact, file_away, verify_one,
}
use ultimate_bbsbox.Archive.Integrity.{IsSound, IsThere, verify_one-grows, verify_one-insert}

is_number_refl : (n : ℕ) → is_number n n ≡ true
is_number_refl n = ground arith

module _ (digests_of : Bytes → Digests) where
  -- The parts and the locks do not matter.
  pub same-IsSound :
      (s t : Store)
      → t.objects ≡ s.objects
      → t.metadata ≡ s.metadata
      → IsSound digests_of s
      → IsSound digests_of t
  same-IsSound s t o m h = record {
    filed = λ k b l. h.filed k b (rw o at l);
    verified = λ id d l.
        verify_one-grows digests_of s t id d (λ k b f. rw o f) (rw m refl)
          (h.verified id d (rw m at l));
  }

  recorded-IsSound :
      (s : Store) (id : String) (d : ArtifactDocument) (b : Bool)
      → IsSound digests_of s
      → (b ≡ true
          → verify_one digests_of id (record s { metadata = insert id d s.metadata }) ≡ ok d)
      → IsSound digests_of (recorded id d b s).1
  recorded-IsSound s id d false h new = h
  recorded-IsSound s id d true h new = record {
    filed = h.filed;
    verified = λ k e l. elim (Bool-cases (id == k)) [
      | inl same ↦
          let ids : id ≡ k = ground (arith, eq_iff id k) in
          let docs : d ≡ e = cc (rw (lookup-insert id k d s.metadata, same) at l) in
          rw (← ids) (rw (← docs) (new refl))
      | inr other ↦
          let old : lookup k (insert id d s.metadata) ≡ lookup k s.metadata =
            rw (lookup-insert id k d s.metadata, other) refl in
          verify_one-grows digests_of s (record s { metadata = insert id d s.metadata }) k e
            (λ j b f. f) old (h.verified k e (rw old at l))
    ];
  }

  module _ (lower-digest : (b : Bytes) → lower (digests_of b).sha256 ≡ (digests_of b).sha256)
      (part id : String) (bytes : Bytes) (url : Option String)
      (document : List String → ArtifactDocument) (named : is_id id ≡ true)
      (hashed : (prior : List String) → (document prior).artifact.digests ≡ digests_of bytes)
      (sized : (prior : List String) → (document prior).artifact.size ≡ length bytes) where
    new_artifact :
        (s : Store) (prior : List String)
        → IsSound digests_of s
        → is_hash 64 (digests_of bytes).sha256 ≡ true
        → IsThere digests_of (digests_of bytes).sha256 bytes s
        → IsSound digests_of (record_artifact id (document prior) s).1
    unfolding record_artifact
    new_artifact s prior h hash there =
        recorded-IsSound s id (document prior) (is_valid (document prior)) h λ v.
          verify_one-insert digests_of s id (document prior) bytes h named v
            (rw (hashed prior) hash) (rw (hashed prior) (lower-digest bytes)) (sized prior)
            (rw (hashed prior) there)

    object_kept :
        (s : Store)
        → lookup (digests_of bytes).sha256 s.objects ≡ none
        → (k : String) (b : Bytes) → lookup k s.objects ≡ some b
        → lookup k (insert (digests_of bytes).sha256 bytes s.objects) ≡ some b
    object_kept s l k b f = elim (Bool-cases ((digests_of bytes).sha256 == k)) [
      | inl same ↦
          let keys : (digests_of bytes).sha256 ≡ k =
            ground (arith, eq_iff (digests_of bytes).sha256 k) in
          absurd (ground (arith, f, rw keys at l))
      | inr other ↦ rw (lookup-insert (digests_of bytes).sha256 k bytes s.objects, other) f
    ]

    filed_object :
        (s : Store)
        → lookup (digests_of bytes).sha256 s.objects ≡ none
        → IsSound digests_of s
        → IsSound digests_of
            (record s { objects = insert (digests_of bytes).sha256 bytes s.objects })
    filed_object s l h = record {
      filed = λ k b f. elim (Bool-cases ((digests_of bytes).sha256 == k)) [
        | inl same ↦
            let keys : (digests_of bytes).sha256 ≡ k =
              ground (arith, eq_iff (digests_of bytes).sha256 k) in
            let contents : bytes ≡ b =
              cc (rw (lookup-insert (digests_of bytes).sha256 k bytes s.objects, same) at f) in
            rw (← contents) keys
        | inr other ↦
            h.filed k b (rw (lookup-insert (digests_of bytes).sha256 k bytes s.objects, other) at f)
      ];
      verified = λ k d f.
          verify_one-grows digests_of s
            (record s { objects = insert (digests_of bytes).sha256 bytes s.objects }) k d
            (object_kept s l) refl (h.verified k d f);
    }

    found_there :
        (s : Store) (old : Bytes) (b : Bool)
        → lookup (digests_of bytes).sha256 s.objects ≡ some old
        → is_number (length old) (length bytes) ≡ b
        → is_hash 64 (digests_of bytes).sha256 ≡ true
        → IsSound digests_of s
        → IsSound digests_of
            ((found_object part b >>= λ _.
                gets (λ s. source_predecessors url (digests_of bytes).sha256 s.metadata)
                >>= λ prior. record_artifact id (document prior))
              s).1
    unfolding ◌>>=◌
    found_there s old false l n hash h = h
    found_there s old true l n hash h =
        new_artifact _ _ (same-IsSound s _ refl refl h) hash
          (record { content = old; there = l; size = n })

    with_object :
        (s : Store) (o : Option Bytes)
        → lookup (digests_of bytes).sha256 s.objects ≡ o
        → is_hash 64 (digests_of bytes).sha256 ≡ true
        → IsSound digests_of s
        → IsSound digests_of
            ((kept_object part (digests_of bytes).sha256 bytes o >>= λ _.
                gets (λ s. source_predecessors url (digests_of bytes).sha256 s.metadata)
                >>= λ prior. record_artifact id (document prior))
              s).1
    unfolding ◌>>=◌
    with_object s none l hash h =
        new_artifact _ _ (same-IsSound _ _ refl refl (filed_object s l h)) hash (record {
          content = bytes;
          there =
              rw
                (
                  lookup-insert (digests_of bytes).sha256 (digests_of bytes).sha256 bytes s.objects,
                  eq_refl (digests_of bytes).sha256,
                )
                refl;
          size = is_number_refl (length bytes);
        })
    with_object s (some old) l hash h = found_there s old _ l refl hash h

    with_key :
        (s : Store) (b : Bool)
        → is_hash 64 (digests_of bytes).sha256 ≡ b
        → IsSound digests_of s
        → IsSound digests_of
            ((lift (if b then ok (lower (digests_of bytes).sha256) else err archive_error)
                >>= λ key. keep_object part key bytes >>= λ _.
                    gets (λ s. source_predecessors url (digests_of bytes).sha256 s.metadata)
                    >>= λ prior. record_artifact id (document prior))
              s).1
    unfolding ◌>>=◌ keep_object
    with_key s false e h = h
    with_key s true e h =
        rw (lower-digest bytes)
          (with_object s (lookup (digests_of bytes).sha256 s.objects) refl e h)

    pub file_away-IsSound :
        Keeps (IsSound digests_of) (file_away part id bytes (digests_of bytes) url document)
    unfolding file_away object_path
    file_away-IsSound = record { at = λ s h. with_key s _ refl h }
