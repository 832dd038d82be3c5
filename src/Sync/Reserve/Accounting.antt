-- ===== src/Sync/Reserve/Accounting.antt =====
-- The shared counter of reserved bytes under any interleaving of receiving tasks:
-- native_core/src/sync_transport.rs.
use photo_organizer.Prelude.{
  ◌==◌, ==_iff, ap, subst, Has, find, find-Has, find-test, bind_ok, ok_injective, ok_or,
  ok_or-eq-ok, checked_add, checked_add-eq-some, ℕ, ◌+◌, ◌-◌, ◌≤◌, ◌≡◌, refl, ◌%◌, u64_max, List,
  [], ◌∷◌, ◌++◌, ok, arith,
}
use photo_organizer.Domain.{LibraryState, BlobChunk, Vault, DeviceIdentity}
use photo_organizer.Sync.Envelope.{TransferEnvelope, invalid, Refusal}
use photo_organizer.Sync.Reserve.{
  overflow, sum_encrypted, required_capacity, reserve_attempt, reserve_receive_capacity,
}

-- The counter, and the reservations that are held.
pub record Counter : Type 0 where
  pub reserved : ℕ
  pub held : List ℕ

abbrev pub total : List ℕ → ℕ
total [] = 0
total (r ∷ rs) = r + total rs

-- The atomic subtraction wraps around.
abbrev pub fetch_sub : ℕ → ℕ → ℕ
fetch_sub a b = (a + 18446744073709551616 - b) % 18446744073709551616

-- A task's successful exchange, and the drop of a reservation. Attempts that are refused, and
-- exchanges that find the counter changed, leave it as it is.
pub data Step : Counter → Counter → Type 0 where
  reserves :
      (c : Counter) (available transfer required wanted : ℕ)
      → reserve_attempt available transfer required c.reserved ≡ ok wanted
      → Step c (record { reserved = wanted; held = transfer ∷ c.held })
  drops :
      (before after : List ℕ) (reserved transfer : ℕ)
      → Step
          (record { reserved = reserved; held = before ++ (transfer ∷ after) })
          (record { reserved = fetch_sub reserved transfer; held = before ++ after })

pub data Reach (c : Counter) : Counter → Type 0 where
  here : Reach c c
  next : {d e : Counter} → Reach c d → Step d e → Reach c e

total-append : (xs ys : List ℕ) → total (xs ++ ys) ≡ total xs + total ys
total-append [] ys = omega arith
total-append (x ∷ xs) ys = omega (arith, total-append xs ys)

abbrev pub IsBalanced : Counter → Type 0
IsBalanced c = (c.reserved ≡ total c.held) × (c.reserved ≤ u64_max)

Step-IsBalanced : {c d : Counter} → Step c d → IsBalanced c → IsBalanced d
unfolding reserve_attempt
Step-IsBalanced (reserves c available transfer required wanted h) e = ground arith
Step-IsBalanced (drops before after reserved transfer) e =
    omega (arith, total-append before (transfer ∷ after), total-append before after)

abbrev pub idle : Counter
idle = record { reserved = 0; held = [] }

Reach-IsBalanced : {c : Counter} → Reach idle c → IsBalanced c
Reach-IsBalanced here = (refl, omega arith)
Reach-IsBalanced (next r s) = Step-IsBalanced s (Reach-IsBalanced r)

-- Whatever the tasks do, in any order, the counter is the sum of the reservations that are held
-- and stays within 64 bits: no drop makes it wrap around.
pub Reach-reserved :
    {c : Counter} → Reach idle c → (c.reserved ≡ total c.held) × (c.reserved ≤ u64_max)
Reach-reserved r = Reach-IsBalanced r

abbrev pub encrypted_total : List BlobChunk → ℕ
encrypted_total [] = 0
encrypted_total (c ∷ cs) = c.encrypted_bytes + encrypted_total cs

sum_encrypted-encrypted_total :
    (start : ℕ) (cs : List BlobChunk) (n : ℕ)
    → sum_encrypted start cs ≡ ok n
    → n ≡ start + encrypted_total cs
unfolding sum_encrypted
sum_encrypted-encrypted_total start [] n h = ground (arith, h)
sum_encrypted-encrypted_total start (c ∷ cs) n h =
    let (more, e, rest) =
      bind_ok (ok_or (checked_add start c.encrypted_bytes) overflow) (λ m. sum_encrypted m cs) n
        h in
    let sum =
      checked_add-eq-some start c.encrypted_bytes
        (ok_or-eq-ok (checked_add start c.encrypted_bytes) overflow e) in
    omega (arith, sum.0, sum_encrypted-encrypted_total more cs n rest)

-- The vault of the blob, the device that receives it, and what the transfer needs there.
abbrev pub Needs : LibraryState → TransferEnvelope → ℕ → ℕ → Type 0
Needs s e transfer required =
    (vault : Vault) × (device : DeviceIdentity) × Has (λ v. v ≡ vault) s.vaults
    × (vault.id ≡ e.blob.vault_id)
    × Has (λ d. d ≡ device) s.devices
    × (device.id ≡ e.to_device_id)
    × (transfer ≡ encrypted_total e.chunks)
    × (required
        ≡ encrypted_total e.chunks
          + (vault.storage_policy.min_free_space_bytes + device.storage_profile.reserved_bytes))

required_capacity-Needs :
    (s : LibraryState) (e : TransferEnvelope) (transfer required : ℕ)
    → required_capacity s e ≡ ok (transfer, required)
    → Needs s e transfer required
unfolding required_capacity
required_capacity-Needs s e transfer required h =
    let s1 = bind_ok (sum_encrypted 0 e.chunks) _ (transfer, required) h in
    let s2 =
      bind_ok
        (ok_or (find (λ v. v.id == e.blob.vault_id) s.vaults) (invalid Refusal.vault_unavailable)) _
        (transfer, required) s1.2 in
    let s3 =
      bind_ok
        (ok_or (find (λ d. d.id == e.to_device_id) s.devices)
          (invalid Refusal.receiver_unavailable))
        _ (transfer, required) s2.2 in
    let low = s2.0.storage_policy.min_free_space_bytes in
    let own = s3.0.storage_profile.reserved_bytes in
    let s4 = bind_ok (ok_or (checked_add low own) overflow) _ (transfer, required) s3.2 in
    let s5 = bind_ok (ok_or (checked_add s1.0 s4.0) overflow) _ (transfer, required) s4.2 in
    let pair : (s1.0, s5.0) ≡ (transfer, required) = ok_injective s5.2 in
    let vault =
      ok_or-eq-ok (find (λ v. v.id == e.blob.vault_id) s.vaults) (invalid Refusal.vault_unavailable)
        s2.1 in
    let device =
      ok_or-eq-ok (find (λ d. d.id == e.to_device_id) s.devices)
        (invalid Refusal.receiver_unavailable) s3.1 in
    let reserve = checked_add-eq-some low own (ok_or-eq-ok (checked_add low own) overflow s4.1) in
    let sum = checked_add-eq-some s1.0 s4.0 (ok_or-eq-ok (checked_add s1.0 s4.0) overflow s5.1) in
    let count = sum_encrypted-encrypted_total 0 e.chunks s1.0 s1.1 in
    let first : s1.0 ≡ transfer = ap (λ (q : ℕ × ℕ). q.0) pair in
    let second : s5.0 ≡ required = ap (λ (q : ℕ × ℕ). q.1) pair in
    (
      s2.0,
      s3.0,
      find-Has (λ v. v.id == e.blob.vault_id) s.vaults vault,
      (==_iff s2.0.id e.blob.vault_id).0 (find-test (λ v. v.id == e.blob.vault_id) s.vaults vault),
      find-Has (λ d. d.id == e.to_device_id) s.devices device,
      (==_iff s3.0.id e.to_device_id).0 (find-test (λ d. d.id == e.to_device_id) s.devices device),
      omega (arith, first, count),
      omega (arith, second, count, reserve.0, sum.0),
    )

attempt_covered :
    {c : Counter} (available transfer required wanted : ℕ)
    → Reach idle c
    → reserve_attempt available transfer required c.reserved ≡ ok wanted
    → (required + total c.held ≤ available) × (wanted ≡ total (transfer ∷ c.held))
unfolding reserve_attempt
attempt_covered available transfer required wanted r h = ground (arith, Reach-IsBalanced r)

-- A reservation is granted only for a vault and a receiving device of the library, for as many bytes
-- as the chunks of the transfer have together, and only if the free space covers these with the
-- vault's free space, the device's reserve and all the reservations that are held at that moment; the
-- counter then is the sum of the reservations, the new one included.
pub reserve_receive_capacity-covered :
    {c : Counter} (available : ℕ) (s : LibraryState) (e : TransferEnvelope) (transfer wanted : ℕ)
    → Reach idle c
    → reserve_receive_capacity available c.reserved s e ≡ ok (transfer, wanted)
    → (required : ℕ) × Needs s e transfer required
      × (required + total c.held ≤ available)
      × (wanted ≡ total (transfer ∷ c.held))
unfolding reserve_receive_capacity
reserve_receive_capacity-covered {c} available s e transfer wanted r h =
    let s1 = bind_ok (required_capacity s e) _ (transfer, wanted) h in
    let s2 =
      bind_ok (reserve_attempt available s1.0.0 s1.0.1 c.reserved) _ (transfer, wanted) s1.2 in
    let pair : (s1.0.0, s2.0) ≡ (transfer, wanted) = ok_injective s2.2 in
    let first : s1.0.0 ≡ transfer = ap (λ (q : ℕ × ℕ). q.0) pair in
    let second : s2.0 ≡ wanted = ap (λ (q : ℕ × ℕ). q.1) pair in
    let covered = attempt_covered {c = c} available s1.0.0 s1.0.1 s2.0 r s2.1 in
    (
      s1.0.1,
      subst (λ (n : ℕ). Needs s e n s1.0.1) first (required_capacity-Needs s e s1.0.0 s1.0.1 s1.1),
      covered.0,
      omega (arith, first, second, covered.1),
    )
