-- ===== src/Quarantine/Reader/Opened.antt =====
-- `VerifiedQuarantineReader::open` of native_core/src/original_quarantine.rs where it succeeds.
use photo_organizer.Prelude.{
  ℕ, ◌≡◌, Option, List, bind_ok, is_empty, sort_by_key, Text, ok, refuse, ok_injective,
}
use photo_organizer.VaultStore.Keys.{Stored}
use photo_organizer.Quarantine.{invalid, Flaw, QuarantinedOriginal, index_of, validate_hash}
use photo_organizer.Quarantine.Keys.{load_existing_object_key}
use photo_organizer.Quarantine.Reader.{
  VerifiedQuarantineReader, check_all, fresh_reader, open_reader,
}

-- The checks that an opened reader has passed, and the key it was opened with.
pub open_reader-fresh :
    (uuid_text : ℕ → Text) (selection : Option Text) (stored : Stored) (o : QuarantinedOriginal)
    (r : VerifiedQuarantineReader)
    → open_reader uuid_text selection stored o ≡ ok r
    → (key : List ℕ) × (validate_hash o.content_hash ≡ ok tt)
      × (refuse (is_empty o.chunks) (invalid Flaw.no_chunks) ≡ ok tt)
      × (load_existing_object_key selection stored ≡ ok key)
      × (fresh_reader key o ≡ r)
unfolding open_reader
open_reader-fresh uuid_text selection stored o r h =
    let s1 = bind_ok (validate_hash o.content_hash) _ r h in
    let s2 = bind_ok (refuse (is_empty o.chunks) (invalid Flaw.no_chunks)) _ r s1.2 in
    let s3 =
      bind_ok (check_all uuid_text o.object_id o.asset_id 0 (sort_by_key index_of o.chunks)) _ r
        s2.2 in
    let s4 = bind_ok (load_existing_object_key selection stored) _ r s3.2 in
    (s4.0, s1.1, s2.1, s4.1, ok_injective s4.2)
