-- ===== src/Vfs/Device.antt =====
-- vfs/src/lib.rs: `VfsError` and the trait `BlockDevice`, with the behaviour of a device that the
-- filesystem relies on. types/src/lib.rs: `Errno`.
use efiks_os.Prelude.{ℕ, ◌≡◌, ◌≢◌, List, length, Result, ok, panic}

pub data VfsError : Type 0 where
  device_io fs already_mounted out_of_bounds not_found unknown : VfsError

-- The trait is implemented by types with associated functions; their hidden state is `Disk`. A
-- write returns the new state also where it fails.
pub record BlockDevice : Type 1 where
  pub Disk : Type 0
  pub read_sector : ℕ → Disk → Result VfsError (List ℕ)
  pub write_sector : ℕ → List ℕ → Disk → Disk × Result VfsError (Unit {0})

abbrev pub sector_size : ℕ
sector_size = 512

-- What a device that works keeps: it does not panic, a sector has 512 bytes, a write that succeeds
-- is read back, and a write changes no other sector.
pub record IsReliable (dev : BlockDevice) : Type 0 where
  pub read_returns : (s : ℕ) (d : dev.Disk) → dev.read_sector s d ≢ panic
  pub write_returns :
      (s : ℕ) (bytes : List ℕ) (d : dev.Disk) → (dev.write_sector s bytes d).1 ≢ panic
  pub read_length :
      (s : ℕ) (d : dev.Disk) {bytes : List ℕ}
      → dev.read_sector s d ≡ ok bytes
      → length bytes ≡ sector_size
  pub read_back :
      (s : ℕ) (bytes : List ℕ) (d : dev.Disk)
      → length bytes ≡ sector_size
      → (dev.write_sector s bytes d).1 ≡ ok tt
      → dev.read_sector s (dev.write_sector s bytes d).0 ≡ ok bytes
  pub read_other :
      (s s' : ℕ) (bytes : List ℕ) (d : dev.Disk)
      → s ≢ s'
      → dev.read_sector s' (dev.write_sector s bytes d).0 ≡ dev.read_sector s' d
