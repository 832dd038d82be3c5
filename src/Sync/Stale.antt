-- ===== src/Sync/Stale.antt =====
-- `cleanup_stale_incoming` of native_core/src/sync_transport.rs: the removal of staging directories that
-- earlier transfers left in a blob's directory. What the file system answers is part of the entries
-- and of `Directory`.
use photo_organizer.Prelude.{
  ℕ, ◌+◌, ◌-◌, ◌*◌, ◌≡◌, ◌⊎◌, inl, inr, refl, Bool, true, false, not, ◌&&◌, Option, none, some,
  List, [], ◌∷◌, ◌==◌, if◌then◌else◌, leb, is_empty, and_then, Text, codes, All, Has, Option-cases,
  Bool-cases, u64_max, arith, Result, ok, err,
}
use photo_organizer.Sync.Envelope.{SyncTransportError, io}

-- What stands at a name: a directory, another object, nothing any more, or something that cannot be
-- inspected; or the listing of the entries breaks off.
pub data EntryKind : Type 0 where
  directory other vanished uninspected unlisted : EntryKind

-- A name is `none` where it is not Unicode.
pub record Entry : Type 0 where
  pub name : Option Text
  pub kind : EntryKind

-- Whether the entries can be listed, and which directories can be removed.
pub record Directory : Type 0 where
  pub listed : Bool
  pub removes : Text → Bool

strip_prefix : Text → Text → Option Text
strip_prefix [] t = some t
strip_prefix (p ∷ ps) [] = none
strip_prefix (p ∷ ps) (c ∷ cs) = let rest = strip_prefix ps cs in if p == c then rest else none

-- What stands before the first separator.
before_separator : ℕ → Text → Option Text
before_separator separator [] = none
before_separator separator (c ∷ cs) =
    let rest = before_separator separator cs in
    if c == separator then some [] else and_then rest (λ part. some (c ∷ part))

parse_digits : ℕ → Text → Option ℕ
parse_digits n [] = some n
parse_digits n (c ∷ cs) =
    let next = n * 10 + (c - 48) in
    let rest = parse_digits next cs in
    if leb 48 c && (leb c 57 && leb next u64_max) then rest else none

-- `str::parse::<u64>`: a plus sign may stand before the digits, of which there has to be one.
parse_u64 : Text → Option ℕ
unfolding parse_digits
parse_u64 [] = none
parse_u64 (c ∷ cs) =
    if c == 43 && not (is_empty cs) then parse_digits 0 cs else parse_digits 0 (c ∷ cs)

-- The time in the name of a staging directory.
unfoldable pub incoming_created_at : Text → Option ℕ
unfolding strip_prefix before_separator parse_u64
incoming_created_at name =
    and_then (strip_prefix (codes ".incoming-") name)
      (λ value. and_then (before_separator 45 value) parse_u64)

-- Seven days.
abbrev pub stale_after : ℕ
stale_after = 7 * 24 * 60 * 60

-- What the loop does with an entry.
pub data Verdict : Type 0 where
  keep remove stop : Verdict

-- For an object of that kind and name, which was made then.
unfoldable pub inspect : Directory → ℕ → EntryKind → Text → ℕ → Verdict
inspect dir now EntryKind.uninspected name created = stop
inspect dir now EntryKind.directory name created =
    if leb stale_after (now - created) then (if dir.removes name then remove else stop) else keep
inspect dir now _ name created = keep

abbrev pub inspect_named : Directory → ℕ → EntryKind → Option Text → Verdict
inspect_named dir now kind none = keep
inspect_named dir now kind (some name) = elim (incoming_created_at name) [
  | none ↦ keep
  | some created ↦ inspect dir now kind name created
]

unfoldable pub verdict : Directory → ℕ → Entry → Verdict
verdict dir now e = elim e.kind [
  | EntryKind.unlisted ↦ stop
  | _ ↦ inspect_named dir now e.kind e.name
]

unfoldable pub clean_each :
    Directory → ℕ → List Entry → Result SyncTransportError (Unit {0}) × List Entry
unfolding verdict inspect
clean_each dir now [] = (ok tt, [])
clean_each dir now (e ∷ es) =
    let rest = clean_each dir now es in
    elim (verdict dir now e) [
      | keep ↦ (rest.0, e ∷ rest.1)
      | remove ↦ rest
      | stop ↦ (err (io []), e ∷ es)
    ]

unfoldable pub cleanup_stale_incoming :
    Directory → ℕ → List Entry → Result SyncTransportError (Unit {0}) × List Entry
cleanup_stale_incoming dir now entries =
    if dir.listed then clean_each dir now entries else (err (io []), entries)

-- A directory that was made for a transfer at least seven days ago, by the time in its name.
abbrev pub IsStale : ℕ → Entry → Type 0
IsStale now e =
    (e.kind ≡ EntryKind.directory)
    × ((name : Text) × (created : ℕ) × (e.name ≡ some name)
        × (incoming_created_at name ≡ some created)
        × (leb stale_after (now - created) ≡ true))

-- The entries that were there are still there, but for stale staging directories.
abbrev pub AreKept : ℕ → List Entry → List Entry → Type 0
AreKept now before after = All (λ x. IsStale now x ⊎ Has (λ y. y ≡ x) after) before

AreKept-more :
    (now : ℕ) (e : Entry) (before after : List Entry)
    → AreKept now before after
    → AreKept now before (e ∷ after)
AreKept-more now e [] after h = tt
AreKept-more now e (x ∷ before) after (inl stale, t) =
    (inl stale, AreKept-more now e before after t)
AreKept-more now e (x ∷ before) after (inr here, t) =
    (inr (inr here), AreKept-more now e before after t)

pub AreKept-same : (now : ℕ) (entries : List Entry) → AreKept now entries entries
AreKept-same now [] = tt
AreKept-same now (e ∷ es) = (inr (inl refl), AreKept-more now e es es (AreKept-same now es))

module _ (dir : Directory) (now : ℕ) where
  inspect-IsStale :
      (kind : EntryKind) (name : Text) (created : ℕ)
      → inspect dir now kind name created ≡ remove
      → (kind ≡ EntryKind.directory) × (leb stale_after (now - created) ≡ true)
  unfolding inspect
  inspect-IsStale EntryKind.uninspected name created h = absurd (ground (arith, h))
  inspect-IsStale EntryKind.other name created h = absurd (ground (arith, h))
  inspect-IsStale EntryKind.vanished name created h = absurd (ground (arith, h))
  inspect-IsStale EntryKind.unlisted name created h = absurd (ground (arith, h))
  inspect-IsStale EntryKind.directory name created h =
      elim (Bool-cases (leb stale_after (now - created))) [
        | inl old ↦ (refl, old)
        | inr fresh ↦ absurd (ground (arith, h, fresh))
      ]

  inspect_named-IsStale :
      (e : Entry) (name : Option Text)
      → e.name ≡ name
      → inspect_named dir now e.kind name ≡ remove
      → IsStale now e
  inspect_named-IsStale e none same h = absurd (ground (arith, h))
  inspect_named-IsStale e (some name) same h = elim (Option-cases (incoming_created_at name)) [
    | inl unnamed ↦ absurd (ground (arith, h, unnamed))
    | inr (created, made) ↦
        let (kind, old) = inspect-IsStale e.kind name created (ground (arith, h, made)) in
        (kind, (name, created, same, made, old))
  ]

  verdict-IsStale : (e : Entry) → verdict dir now e ≡ remove → IsStale now e
  unfolding verdict
  verdict-IsStale e h = inspect_named-IsStale e e.name refl (ground (arith, h))

  clean_each-AreKept : (entries : List Entry) → AreKept now entries (clean_each dir now entries).1
  unfolding clean_each
  clean_each-AreKept [] = tt
  clean_each-AreKept (e ∷ es) = step (verdict dir now e) refl (clean_each-AreKept es)
    where
      after : Verdict → Result SyncTransportError (Unit {0}) × List Entry
      after keep = ((clean_each dir now es).0, e ∷ (clean_each dir now es).1)
      after remove = clean_each dir now es
      after stop = (err (io []), e ∷ es)

      step :
          (v : Verdict)
          → verdict dir now e ≡ v
          → AreKept now es (clean_each dir now es).1
          → AreKept now (e ∷ es) (after v).1
      step keep h k = (inr (inl refl), AreKept-more now e es (clean_each dir now es).1 k)
      step remove h k = (inl (verdict-IsStale e h), k)
      step stop h k = AreKept-same now (e ∷ es)

  pub cleanup_stale_incoming-AreKept :
      (entries : List Entry) → AreKept now entries (cleanup_stale_incoming dir now entries).1
  unfolding cleanup_stale_incoming
  cleanup_stale_incoming-AreKept entries = pick dir.listed
    where
      pick :
          (b : Bool)
          → AreKept now entries (if b then clean_each dir now entries else (err (io []), entries)).1
      pick true = clean_each-AreKept entries
      pick false = AreKept-same now entries
