-- ===== src/Sync/Receive/Storage.antt =====
-- What staging and publishing do to a blob's directory: native_core/src/sync_transport.rs.
use photo_organizer.Prelude.{
  ℕ, ◌≡◌, refl, true, false, Option, none, some, List, [], ◌∷◌, All, length, Text, text_eq_iff, ok,
  saturating_add, arith, Option-cases, Result-cases, inl, inr, ◌⊎◌, subst, sym,
}
use photo_organizer.Domain.{BlobRecord, BlobChunk}
use photo_organizer.Sync.Envelope.{max_chunk_frame_bytes}
use photo_organizer.Sync.Frames.{read_frame}
use photo_organizer.Sync.Files.{
  Node, regular, special, Files, lookup, write_staged_chunk, storage_file_matches, file_matches,
  publish_staged_chunk, publish_chunks,
}
use photo_organizer.Sync.Receive.{Received, receive_chunks}

write_staged_chunk-lookup :
    (stage staged : Files) (i j : ℕ) (bytes : List ℕ)
    → write_staged_chunk stage i bytes ≡ ok staged
    → (lookup staged i ≡ some (regular bytes))
      × ((n : Node) → lookup stage j ≡ some n → lookup staged j ≡ some n)
unfolding write_staged_chunk
write_staged_chunk-lookup stage staged i j bytes h = (ground arith, λ n k. ground arith)

module _ (digest : List ℕ → Text) where
  -- The file at the chunk's name has the declared digest and size.
  abbrev pub Holds : Files → BlobChunk → Type 0
  Holds files c =
      (bytes : List ℕ) × (lookup files c.chunk_index ≡ some (regular bytes))
      × (digest bytes ≡ c.encrypted_hash)
      × (length bytes ≡ c.encrypted_bytes)

  abbrev pub Extends : Files → Files → Type 0
  Extends before after = (j : ℕ) (n : Node) → lookup before j ≡ some n → lookup after j ≡ some n

  pub Holds-Extends : (a b : Files) (c : BlobChunk) → Extends a b → Holds a c → Holds b c
  Holds-Extends a b c ext (bytes, found, hash, size) =
      (bytes, ext c.chunk_index (regular bytes) found, hash, size)

  pub All-Extends :
      (a b : Files) (cs : List BlobChunk) → Extends a b → All (Holds a) cs → All (Holds b) cs
  All-Extends a b [] ext h = tt
  All-Extends a b (c ∷ cs) ext h = (Holds-Extends a b c ext h.0, All-Extends a b cs ext h.1)

  file_matches-Holds :
      (dir : Files) (c : BlobChunk)
      → storage_file_matches digest dir c.chunk_index c.encrypted_hash c.encrypted_bytes ≡ ok true
      → Holds dir c
  unfolding storage_file_matches file_matches
  file_matches-Holds dir c h = elim (node_cases (lookup dir c.chunk_index)) [
    | inl (inl e) ↦ absurd (ground (arith, e))
    | inl (inr e) ↦ absurd (ground (arith, e))
    | inr (bytes, e) ↦ (
      bytes,
      e,
      ground (arith, e, text_eq_iff (digest bytes) c.encrypted_hash),
      ground (arith, e),
    )
  ]
    where
      node_cases :
          (o : Option Node)
          → ((o ≡ none) ⊎ (o ≡ some special)) ⊎ ((bytes : List ℕ) × (o ≡ some (regular bytes)))
      node_cases none = inl (inl refl)
      node_cases (some special) = inl (inr refl)
      node_cases (some (regular bytes)) = inr (bytes, refl)

  -- A publication finds the right file there, or puts the staged one where nothing stands.
  publish_cases :
      (stage dir published : Files) (index : ℕ) (hash : Text) (size : ℕ)
      → publish_staged_chunk digest stage dir index hash size ≡ ok published
      → ((published ≡ dir) × (storage_file_matches digest dir index hash size ≡ ok true))
        ⊎ ((node : Node) × (lookup stage index ≡ some node)
            × (lookup dir index ≡ none)
            × (published ≡ (index, node) ∷ dir))
  unfolding publish_staged_chunk
  publish_cases stage dir published index hash size h = elim (Option-cases (lookup stage index)) [
    | inl e ↦ inl (ground (arith, e))
    | inr (node, e) ↦ elim (Option-cases (lookup dir index)) [
      | inl f ↦ elim (Result-cases (storage_file_matches digest dir index hash size)) [
        | inl (true, g) ↦ inl (ground (arith, e, f, g))
        | inl (false, g) ↦ inr (node, e, f, ground (arith, e, f, g))
        | inr (x, g) ↦ absurd (ground (arith, e, f, g))
      ]
      | inr (there, f) ↦ inl (ground (arith, e, f))
    ]
  ]

  publish_staged_chunk-Extends :
      (stage dir published : Files) (index : ℕ) (hash : Text) (size : ℕ)
      → publish_staged_chunk digest stage dir index hash size ≡ ok published
      → Extends dir published
  publish_staged_chunk-Extends stage dir published index hash size h j n k =
      elim (publish_cases stage dir published index hash size h) [
        | inl (e, _) ↦ rw e k
        | inr (node, _, free, e) ↦ rw e (ground (arith, free))
      ]

  publish_staged_chunk-Holds :
      (stage dir published : Files) (c : BlobChunk)
      → Holds stage c
      → publish_staged_chunk digest stage dir c.chunk_index c.encrypted_hash c.encrypted_bytes
        ≡ ok published
      → Holds published c
  publish_staged_chunk-Holds stage dir published c (bytes, found, hash, size) h =
      elim (publish_cases stage dir published c.chunk_index c.encrypted_hash c.encrypted_bytes h) [
        | inl (e, matches) ↦ rw e (file_matches-Holds dir c matches)
        | inr (node, staged, free, e) ↦ (bytes, rw e (ground (arith, staged, found)), hash, size)
      ]

  pub publish_chunks-Extends :
      (stage dir : Files) (cs : List BlobChunk) → Extends dir (publish_chunks digest stage dir cs).1
  unfolding publish_chunks
  publish_chunks-Extends stage dir [] j n k = k
  publish_chunks-Extends stage dir (c ∷ cs) j n k =
      elim (Result-cases
        (publish_staged_chunk digest stage dir c.chunk_index c.encrypted_hash c.encrypted_bytes)) [
          | inl (published, e) ↦
              rw (e, publish_chunks)
                (publish_chunks-Extends stage published cs j n (
                  publish_staged_chunk-Extends stage dir published c.chunk_index c.encrypted_hash
                    c.encrypted_bytes e j n k))
          | inr (x, e) ↦ rw (e, publish_chunks) k
        ]

  pub publish_chunks-Holds :
      (stage dir : Files) (cs : List BlobChunk)
      → All (Holds stage) cs
      → (publish_chunks digest stage dir cs).0 ≡ ok tt
      → All (Holds (publish_chunks digest stage dir cs).1) cs
  unfolding publish_chunks
  publish_chunks-Holds stage dir [] staged h = tt
  publish_chunks-Holds stage dir (c ∷ cs) staged h =
      elim (Result-cases
        (publish_staged_chunk digest stage dir c.chunk_index c.encrypted_hash c.encrypted_bytes)) [
          | inl (published, e) ↦
              subst (λ p. All (Holds p.1) (c ∷ cs)) (sym (published_first e))
                (
                  Holds-Extends published (publish_chunks digest stage published cs).1 c
                      (publish_chunks-Extends stage published cs)
                      (publish_staged_chunk-Holds stage dir published c staged.0 e),
                  publish_chunks-Holds stage published cs staged.1
                      (subst (λ p. p.0 ≡ ok tt) (published_first e) h),
                )
          | inr (x, e) ↦ absurd (ground (arith, e))
        ]
    where
      published_first :
          {published : Files}
          → publish_staged_chunk digest stage dir c.chunk_index c.encrypted_hash c.encrypted_bytes
            ≡ ok published
          → publish_chunks digest stage dir (c ∷ cs) ≡ publish_chunks digest stage published cs
      published_first e = rw (e, publish_chunks)

module _ (digest : List ℕ → Text) (uuid_text : ℕ → Text) where
  -- Each received chunk is staged with the declared digest and size, and staged files stay.
  pub receive_chunks-staged :
      (blob : BlobRecord) (connection : List ℕ) (stage : Files) (bytes : ℕ) (cs : List BlobChunk)
      (r : Received)
      → receive_chunks digest uuid_text blob connection stage bytes cs ≡ ok r
      → Extends digest stage r.stage × All (Holds digest r.stage) cs
  unfolding receive_chunks
  receive_chunks-staged blob connection stage bytes [] r h = (λ j n k. ground arith, tt)
  receive_chunks-staged blob connection stage bytes (c ∷ cs) r h =
      elim (Result-cases (read_frame connection max_chunk_frame_bytes)) [
        | inr (x, e) ↦ absurd (ground (arith, e))
        | inl ((frame, rest), e) ↦
            elim (Result-cases (write_staged_chunk stage c.chunk_index frame)) [
              | inr (x, f) ↦ absurd (ground (arith, e, f))
              | inl (staged, f) ↦
                  elim (Result-cases (
                    receive_chunks digest uuid_text blob rest staged (saturating_add bytes c.bytes)
                      cs)) [
                        | inr (x, g) ↦ absurd (ground (arith, e, f, g))
                        | inl (more, g) ↦
                            let (keep, holds) =
                              receive_chunks-staged blob rest staged (saturating_add bytes c.bytes)
                                cs more g in
                            let same : r.stage ≡ more.stage = ground (arith, e, f, g) in
                            let written =
                              (write_staged_chunk-lookup stage staged c.chunk_index c.chunk_index
                                frame f).0 in
                            (
                              λ j n k. rw same (
                                  keep j n (
                                    (write_staged_chunk-lookup stage staged c.chunk_index j frame
                                        f).1
                                      n k)),
                              subst (λ st. All (Holds digest st) (c ∷ cs)) (sym same)
                                  (
                                    (
                                      frame,
                                      keep c.chunk_index (regular frame) written,
                                      ground (
                                        arith,
                                        e,
                                        f,
                                        g,
                                        text_eq_iff (digest frame) c.encrypted_hash,
                                      ),
                                      ground (arith, e, f, g),
                                    ),
                                    holds,
                                  ),
                            )
                      ]
            ]
      ]
