-- ===== src/Vfs/Memory.antt =====
-- A block device in memory, after the one in the tests of vsfs/src/lib.rs. It shows that the laws
-- of a device can hold, and runs the tests.
use efiks_os.Prelude.{ℕ, ◌&&◌, List, length, Result, ok, err, ltb, ◌==◌, if◌then◌else◌, arith}
use efiks_os.Vfs.Device.{BlockDevice, IsReliable, VfsError, device_io, sector_size}

pub record Disk : Type 0 where
  pub sectors : ℕ
  pub contents : ℕ → List ℕ

abbrev pub read_sector : ℕ → Disk → Result VfsError (List ℕ)
read_sector s d =
    if ltb s d.sectors && length (d.contents s) == sector_size
    then ok (d.contents s)
    else err device_io

abbrev pub write_sector : ℕ → List ℕ → Disk → Disk × Result VfsError (Unit {0})
write_sector s bytes d =
    if ltb s d.sectors && length bytes == sector_size
    then (record d { contents = λ t. if s == t then bytes else d.contents t }, ok tt)
    else (d, err device_io)

abbrev pub memory : BlockDevice
memory = record { Disk = Disk; read_sector = read_sector; write_sector = write_sector }

pub memory-IsReliable : IsReliable memory
memory-IsReliable = record {
  read_returns = λ s d h. ground arith;
  write_returns = λ s bytes d h. ground arith;
  read_length = λ s d h. ground arith;
  read_back = λ s bytes d h k. ground arith;
  read_other = λ s s' bytes d h. ground arith;
}
