-- ===== src/Vsfs/Bitmap.antt =====
-- vsfs/src/lib.rs: `allocate_bitmap_bit` and `free_bitmap_bit`, and what allocates and frees inodes
-- and data blocks with them.
pub mod Laws
pub mod Free
use efiks_os.Prelude.{
  ℕ, zero, suc, ◌+◌, ◌-◌, ◌*◌, ◌/◌, ◌%◌, ◌^◌, min, bit_and, bit_or, Bool, true, false, List, [],
  ◌∷◌, Option, none, some, get_elem?, set, Result, ok, err, panic, ◌>>=◌, ltb, leb, ◌==◌,
  if◌then◌else◌,
}
use efiks_os.Prelude.Bits.{bit_not}
use efiks_os.Vfs.Device.{BlockDevice, VfsError, fs, sector_size}
use efiks_os.Vsfs.Layout.{SuperBlock, sectors_per_block}

abbrev pub bits_per_sector : ℕ
bits_per_sector = sector_size * 8

-- The inner loop of `allocate_bitmap_bit`: the first clear bit from `local_bit` on, `count` bits to
-- look at, with the bytes in which it is set.
unfoldable pub find_clear : List ℕ → ℕ → ℕ → Result VfsError (Option (ℕ × List ℕ))
find_clear buf local_bit zero = ok none
find_clear buf local_bit (suc count) = elim (get_elem? buf (local_bit / 8)) [
  | none ↦ panic
  | some byte ↦ elim (bit_and byte (2 ^ (local_bit % 8)) == 0) [
    | true ↦ ok (some (local_bit, set buf (local_bit / 8) (bit_or byte (2 ^ (local_bit % 8)))))
    | false ↦ find_clear buf (suc local_bit) count
  ]
]

module _ (device : BlockDevice) where
  open device use {Disk, read_sector, write_sector}

  -- The outer loop, over `count` sectors of the bitmap.
  unfoldable pub find_in_sectors :
      (bitmap_block start_bit end_bit sector_offset count : ℕ) → Disk → Disk × Result VfsError ℕ
  unfolding find_clear
  find_in_sectors bitmap_block start_bit end_bit sector_offset zero d = (d, err fs)
  find_in_sectors bitmap_block start_bit end_bit sector_offset (suc count) d =
      let sector = bitmap_block * sectors_per_block + sector_offset in
      let sector_start_bit = sector_offset * bits_per_sector in
      let local_start = start_bit - sector_start_bit in
      let local_end = min (end_bit - sector_start_bit) bits_per_sector in
      elim (read_sector sector d) [
        | err e ↦ (d, err e)
        | panic ↦ (d, panic)
        | ok buf ↦ elim (find_clear buf local_start (local_end - local_start)) [
          | err e ↦ (d, err e)
          | panic ↦ (d, panic)
          | ok none ↦ find_in_sectors bitmap_block start_bit end_bit (suc sector_offset) count d
          | ok (some (local_bit, marked)) ↦
              let (d', done) = write_sector sector marked d in
              elim done [
                | ok _ ↦ (d', ok (sector_start_bit + local_bit))
                | err e ↦ (d', err e)
                | panic ↦ (d', panic)
              ]
        ]
      ]

  -- `div_ceil`
  abbrev pub sectors_for : ℕ → ℕ
  sectors_for bits = (bits + (bits_per_sector - 1)) / bits_per_sector

  unfoldable pub allocate_bitmap_bit : ℕ → ℕ → ℕ → Disk → Disk × Result VfsError ℕ
  unfolding find_in_sectors
  allocate_bitmap_bit bitmap_block start_bit end_bit d =
      let start_sector = start_bit / bits_per_sector in
      let end_sector = sectors_for end_bit in
      if ltb sectors_per_block end_sector
      then (d, err fs)
      else find_in_sectors bitmap_block start_bit end_bit start_sector (end_sector - start_sector) d

  unfoldable pub free_bitmap_bit : ℕ → ℕ → Disk → Disk × Result VfsError (Unit {0})
  free_bitmap_bit bitmap_block bit d =
      let sector_offset = bit / bits_per_sector in
      let byte_idx = bit % bits_per_sector / 8 in
      let mask = 2 ^ (bit % 8) in
      let sector = bitmap_block * sectors_per_block + sector_offset in
      if leb sectors_per_block sector_offset then (d, err fs) else elim (read_sector sector d) [
        | err e ↦ (d, err e)
        | panic ↦ (d, panic)
        | ok buf ↦ elim (get_elem? buf byte_idx) [
          | none ↦ (d, panic)
          | some byte ↦
              if bit_and byte mask == 0
              then (d, err fs)
              else write_sector sector (set buf byte_idx (bit_and byte (bit_not 8 mask))) d
        ]
      ]

  module _ (superblock : SuperBlock) where
    unfoldable pub allocate_inode : Disk → Disk × Result VfsError ℕ
    unfolding allocate_bitmap_bit
    allocate_inode = allocate_bitmap_bit superblock.inode_bitmap_block 1 superblock.ninodes

    -- `nblocks - data_block_start` panics where it underflows (overflow checks on).
    unfoldable pub allocate_data_block : Disk → Disk × Result VfsError ℕ
    unfolding allocate_bitmap_bit
    allocate_data_block d =
        if ltb superblock.nblocks superblock.data_block_start
        then (d, panic)
        else (let (d', found) =
              allocate_bitmap_bit superblock.data_bitmap_block 0
                (superblock.nblocks - superblock.data_block_start) d in
            (d', (found >>= λ bit. ok (superblock.data_block_start + bit))))

    unfoldable pub free_inode : ℕ → Disk → Disk × Result VfsError (Unit {0})
    unfolding free_bitmap_bit
    free_inode = free_bitmap_bit superblock.inode_bitmap_block

    unfoldable pub free_data_block : ℕ → Disk → Disk × Result VfsError (Unit {0})
    unfolding free_bitmap_bit
    free_data_block block d =
        if ltb block superblock.data_block_start
        then (d, err fs)
        else free_bitmap_bit superblock.data_bitmap_block (block - superblock.data_block_start) d
