-- ===== src/Quarantine/Seal/Unharmed.antt =====
-- What `seal_managed_original` of native_core/src/original_quarantine.rs does to the files that are
-- there already.
use photo_organizer.Prelude.{
  ◌&&◌, not, retain, ℕ, ◌≡◌, ◌⊎◌, true, false, some, List, ◌++◌, starts_with, Text, codes, Result,
  ok, err,
}
use photo_organizer.VaultStore.{Disk, read_file}
use photo_organizer.VaultStore.Seal.{Cipher}
use photo_organizer.Quarantine.{QuarantineError, object_relative_root}
use photo_organizer.Quarantine.Seal.{is_below, FileSystem}

-- The files that do not stand below the directory.
abbrev pub outside : Disk → Text → Disk
outside disk root = retain (λ f. not (is_below root f)) disk

-- Files of the object can be left behind: one of them cannot be removed, or a step after the moves
-- fails.
abbrev pub Leftover : FileSystem → Text → Type 0
Leftover fs root =
    ((name : Text) × (starts_with name (root ++ codes "/") ≡ true) × (fs.removes name ≡ false))
    ⊎ ((fs.stage_removed && (fs.parent_flushed && fs.root_flushed)) ≡ false)

-- A call changed nothing outside the object's directory. If it failed, it left the disk as it was or
-- something failed that lets files of the object remain; if it succeeded, it kept the files.
abbrev Outcome : {A : Type 0} → FileSystem → Text → Disk → Result QuarantineError A × Disk → Type 0
Outcome fs root before (err x, after) =
    (outside after root ≡ before) × ((after ≡ before) ⊎ Leftover fs root)
Outcome fs root before (ok a, after) =
    (outside after root ≡ before)
    × ((path : Text) (bytes : List ℕ)
        → read_file before path ≡ some bytes
        → read_file after path ≡ some bytes)

-- A call that failed left the disk as it was at its start, or as others have made it in the meantime,
-- or nothing but files of the object is added to the latter, which something failed to remove or to
-- confirm; one that succeeded added nothing but files of the object, and kept every file.
abbrev pub IsUnharmed :
    {A : Type 0} → FileSystem → Text → Disk → Disk → Result QuarantineError A → Disk → Type 0
IsUnharmed fs root before now (err x) after =
    (after ≡ before) ⊎ ((after ≡ now) ⊎ ((outside after root ≡ now) × Leftover fs root))
IsUnharmed fs root before now (ok a) after =
    (outside after root ≡ now)
    × ((path : Text) (bytes : List ℕ)
        → read_file now path ≡ some bytes
        → read_file after path ≡ some bytes)

module _ (uuid_text : ℕ → Text) (sha256_hex : List ℕ → Text) (encrypt : Cipher) (nonce : ℕ → List ℕ)
    (object asset : ℕ) (fs : FileSystem) (meanwhile : Disk → Disk) where
  abbrev root : Text
  root = object_relative_root uuid_text object
