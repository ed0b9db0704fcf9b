-- ===== src/Vsfs/Blocks/Contents.antt =====
-- The bytes of a file as the blocks of its inode hold them, independent of the loops that transfer
-- them.
use efiks_os.Prelude.{
  ℕ, ◌+◌, ◌-◌, ◌*◌, ◌/◌, ◌%◌, ◌≡◌, ◌≢◌, refl, ◌∙◌, ap, sym, get_elem?_lt, tests, length, get_elem?,
  Option, none, some, Result, ok, panic, ◌>>=◌, or_panic, ltb, ◌==◌, arith, Bool-cases, inl, inr,
  ==→≡,
}
use efiks_os.Vfs.Device.{BlockDevice, VfsError, IsReliable, sector_size}
use efiks_os.Vsfs.Layout.{InodeInner, block_size, direct_block_count}
use efiks_os.Vsfs.Blocks.{data_block, map_block, sector_of}

-- The inode has its 12 direct blocks, as the array type of the source has it.
abbrev pub IsInode : InodeInner → Type 0
IsInode inode = length inode.direct_blocks ≡ direct_block_count

module _ (device : BlockDevice) where
  open device use {Disk, read_sector}

  -- The byte at position `p` of the file.
  unfoldable pub file_byte : Disk → InodeInner → ℕ → Result VfsError ℕ
  file_byte d inode p = do
    block ← data_block device d inode (p / block_size)
    buf ← read_sector (sector_of device block p) d
    or_panic (get_elem? buf (p % sector_size))

  -- What `mapped_block` holds is what `data_block` gives.
  abbrev pub IsMapped : Disk → InodeInner → Option (ℕ × ℕ) → Type 0
  IsMapped d inode none = Unit
  IsMapped d inode (some (logical, block)) = data_block device d inode logical ≡ ok block

  pub map_block-data_block :
      (d : Disk) (inode : InodeInner) (logical : ℕ) (mapped : Option (ℕ × ℕ))
      → IsMapped d inode mapped
      → map_block device d inode logical mapped ≡ data_block device d inode logical
  unfolding map_block
  map_block-data_block d inode logical none h = refl
  map_block-data_block d inode logical (some (l, block)) h = elim (Bool-cases (l == logical)) [
    | inl same ↦ rw same (sym h ∙ ap (data_block device d inode) (==→≡ l logical same))
    | inr other ↦ rw other
  ]

  -- With 12 direct blocks and a device that returns, no index is out of bounds.
  pub data_block-ne-panic :
      (d : Disk) (inode : InodeInner) (logical : ℕ)
      → IsReliable device
      → IsInode inode
      → data_block device d inode logical ≢ panic
  unfolding data_block
  data_block-ne-panic d inode logical rel v = elim (Bool-cases (ltb logical 12)) [
    | inl direct ↦
        let (b, e) = get_elem?_lt inode.direct_blocks logical (omega (tests, v)) in
        rw (direct, e) (ground arith)
    | inr indirect ↦
        ground (arith, rel.read_returns (inode.indirect_block * 8 + (logical - 12) * 4 / 512) d)
  ]
