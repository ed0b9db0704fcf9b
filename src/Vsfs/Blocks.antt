-- ===== src/Vsfs/Blocks.antt =====
-- vsfs/src/lib.rs: `INode::data_block`, and `read` and `write` of `impl VNode for INode`.
pub mod Contents
pub mod Read
pub mod Write
pub mod WriteLoop
mod Tests
use efiks_os.Prelude.{
  ℕ, zero, suc, ◌+◌, ◌-◌, ◌*◌, ◌/◌, ◌%◌, ◌^◌, min, Bool, true, false, List, [], ◌∷◌, ◌++◌, ◌||◌,
  Option, none, some, get_elem?, slice, splice, length, replicate, Result, ok, err, panic, ◌>>=◌,
  ◌>>◌, guard, or_panic, ltb, leb, ◌==◌, if◌then◌else◌,
}
use efiks_os.Vfs.Device.{BlockDevice, VfsError, fs, sector_size}
use efiks_os.Vsfs.Layout.{
  InodeInner, FileType, directory, file, is_directory, read32, block_size, sectors_per_block,
  direct_block_count, indirect_block_entries,
}

module _ (device : BlockDevice) where
  open device use {Disk, read_sector, write_sector}

  -- The entry of the single-indirect block.
  indirect_pointer : Disk → InodeInner → ℕ → Result VfsError ℕ
  indirect_pointer d inode logical =
      let index = logical - direct_block_count in
      if leb indirect_block_entries index || inode.indirect_block == 0
      then err fs
      else (read_sector (inode.indirect_block * sectors_per_block + index * 4 / sector_size) d
          >>= λ buf. ok (read32 buf (index * 4 % sector_size)))

  pub data_block : Disk → InodeInner → ℕ → Result VfsError ℕ
  unfolding indirect_pointer
  data_block d inode logical = do
    block ←
        if ltb logical direct_block_count
        then or_panic (get_elem? inode.direct_blocks logical)
        else indirect_pointer d inode logical
    if block == 0 then err fs else ok block

  -- The block of the last round is kept in `mapped_block`.
  unfoldable pub map_block : Disk → InodeInner → ℕ → Option (ℕ × ℕ) → Result VfsError ℕ
  map_block d inode logical none = data_block d inode logical
  map_block d inode logical (some (mapped_logical_block, block)) =
      if mapped_logical_block == logical then ok block else data_block d inode logical

  abbrev pub sector_of : ℕ → ℕ → ℕ
  sector_of block offset = block * sectors_per_block + offset % block_size / sector_size

  -- A failed look-up ends the loop, without an error if something was transferred.
  abbrev pub stop : VfsError → ℕ → Result VfsError ℕ
  stop e total = if ltb 0 total then ok total else err e

  -- The loop of `read`, with what it has put into `buf`. Each round moves at least one byte.
  unfoldable pub read_loop :
      Disk
      → InodeInner
      → (fuel offset total remaining : ℕ) → Option (ℕ × ℕ)
      → List ℕ
      → Result VfsError ℕ × List ℕ
  unfolding map_block
  read_loop d inode fuel offset total zero mapped buf = (ok total, buf)
  read_loop d inode zero offset total (suc r) mapped buf = (panic, buf)
  read_loop d inode (suc fuel) offset total (suc r) mapped buf =
      elim (map_block d inode (offset / block_size) mapped) [
        | err e ↦ (stop e total, buf)
        | panic ↦ (panic, buf)
        | ok block ↦ elim (read_sector (sector_of block offset) d) [
          | err e ↦ (err e, buf)
          | panic ↦ (panic, buf)
          | ok sector_buf ↦
              let sector_offset = offset % block_size % sector_size in
              let to_copy = min (sector_size - sector_offset) (suc r) in
              read_loop d inode fuel (offset + to_copy) (total + to_copy) (suc r - to_copy)
                (some (offset / block_size, block))
                (splice buf total (slice sector_buf sector_offset to_copy))
        ]
      ]

  unfoldable pub read : Disk → InodeInner → ℕ → List ℕ → Result VfsError ℕ × List ℕ
  unfolding read_loop
  read d inode offset buf =
      if is_directory inode.ty
      then (err fs, buf)
      else (if leb inode.metadata.sz offset || length buf == 0
          then (ok 0, buf)
          else (let remaining = min (length buf) (inode.metadata.sz - offset) in
              read_loop d inode remaining offset 0 remaining none buf))

  -- The sector that a round of `write` changes: read first unless it is overwritten whole.
  unfoldable pub load_sector : Disk → ℕ → ℕ → List ℕ → Result VfsError (List ℕ)
  load_sector d sector to_copy sector_buf =
      if to_copy == sector_size then ok sector_buf else read_sector sector d

  unfoldable pub write_loop :
      InodeInner
      → List ℕ
      → (fuel offset total remaining : ℕ) → Option (ℕ × ℕ)
      → List ℕ
      → Disk
      → Disk × Result VfsError ℕ
  unfolding map_block load_sector
  write_loop inode buf fuel offset total zero mapped sector_buf d = (d, ok total)
  write_loop inode buf zero offset total (suc r) mapped sector_buf d = (d, panic)
  write_loop inode buf (suc fuel) offset total (suc r) mapped sector_buf d =
      let sector_offset = offset % block_size % sector_size in
      let to_copy = min (sector_size - sector_offset) (suc r) in
      elim (map_block d inode (offset / block_size) mapped) [
        | err e ↦ (d, stop e total)
        | panic ↦ (d, panic)
        | ok block ↦ elim (load_sector d (sector_of block offset) to_copy sector_buf) [
          | err e ↦ (d, err e)
          | panic ↦ (d, panic)
          | ok loaded ↦
              let merged = splice loaded sector_offset (slice buf total to_copy) in
              let (d', done) = write_sector (sector_of block offset) merged d in
              elim done [
                | err e ↦ (d', err e)
                | panic ↦ (d', panic)
                | ok _ ↦
                    write_loop inode buf fuel (offset + to_copy) (total + to_copy) (suc r - to_copy)
                      (some (offset / block_size, block)) merged d'
              ]
        ]
      ]

  unfoldable pub write : InodeInner → ℕ → List ℕ → Disk → Disk × Result VfsError ℕ
  unfolding write_loop
  write inode offset buf d =
      if is_directory inode.ty
      then (d, err fs)
      else (if leb inode.metadata.sz offset || length buf == 0
          then (d, ok 0)
          else (let remaining = min (length buf) (inode.metadata.sz - offset) in
              write_loop inode buf remaining offset 0 remaining none (replicate sector_size 0) d))
