-- ===== src/Vsfs/Blocks/Write.antt =====
-- One round of `write` of `impl VNode for INode`, against the bytes that the blocks hold.
use native.Mathlib.Decide.{ℕ_discrete}
use efiks_os.Prelude.{
  ℕ, ◌+◌, ◌-◌, ◌*◌, ◌/◌, ◌%◌, ◌≤◌, ◌<◌, ◌≡◌, ◌≢◌, refl, sym, ◌∙◌, ap, List, length, get_elem?,
  splice, slice, ◌||◌, ok, or_panic, leb, ◌==◌, arith, Bool-cases, inl, inr, Result-cases,
  length-splice, length-slice, get_elem?-slice, get_elem?-splice_inside, get_elem?-splice_below,
  get_elem?-splice_above, ◌⊎◌,
}
use efiks_os.Vfs.Device.{BlockDevice, IsReliable, sector_size}
use efiks_os.Vsfs.Layout.{InodeInner, block_size}
use efiks_os.Vsfs.Blocks.{data_block, indirect_pointer, sector_of}
use efiks_os.Vsfs.Blocks.Contents.{file_byte}

module _ (device : BlockDevice) where
  open device use {Disk, read_sector, write_sector}

  -- No data block of the file serves twice, and none is the block of its pointers.
  pub record IsUnshared (d : Disk) (inode : InodeInner) : Type 0 where
    pub distinct :
        (l l' b : ℕ)
        → data_block device d inode l ≡ ok b
        → data_block device d inode l' ≡ ok b
        → l ≡ l'
    pub apart : (l b : ℕ) → data_block device d inode l ≡ ok b → b ≢ inode.indirect_block

  -- A sector of the data block `block` is none of the pointer block.
  indirect_pointer-write :
      (rel : IsReliable device) (d : Disk) (inode : InodeInner) (block k logical : ℕ)
      (bytes : List ℕ)
      → k < 8
      → block ≢ inode.indirect_block
      → indirect_pointer device (write_sector (block * 8 + k) bytes d).0 inode logical
        ≡ indirect_pointer device d inode logical
  unfolding indirect_pointer
  indirect_pointer-write rel d inode block k logical bytes h ne =
      let index = logical - 12 in
      let pointers = inode.indirect_block * 8 + index * 4 / 512 in
      elim (Bool-cases (leb 1024 index || inode.indirect_block == 0)) [
        | inl outside ↦ rw outside
        | inr inside ↦ rw (inside, rel.read_other (block * 8 + k) pointers bytes d (ground arith))
      ]

  -- A write to a data block leaves the map of the blocks alone.
  pub data_block-write :
      (rel : IsReliable device) (d : Disk) (inode : InodeInner) (block k logical : ℕ)
      (bytes : List ℕ)
      → k < 8
      → block ≢ inode.indirect_block
      → data_block device (write_sector (block * 8 + k) bytes d).0 inode logical
        ≡ data_block device d inode logical
  unfolding data_block
  data_block-write rel d inode block k logical bytes h ne =
      rw (indirect_pointer-write rel d inode block k logical bytes h ne)

  module _ (rel : IsReliable device) (d : Disk) (inode : InodeInner) (unshared : IsUnshared d inode)
      (offset total count block : ℕ) (buf loaded : List ℕ)
      (mapped : data_block device d inode (offset / block_size) ≡ ok block)
      (full : length loaded ≡ sector_size)
      (old : count < sector_size → read_sector (sector_of device block offset) d ≡ ok loaded)
      (inside : offset % block_size % sector_size + count ≤ sector_size)
      (fits : total + count ≤ length buf) where
    abbrev sector : ℕ
    sector = sector_of device block offset

    abbrev pub chunk : List ℕ
    chunk = slice buf total count

    abbrev pub merged : List ℕ
    merged = splice loaded (offset % block_size % sector_size) chunk

    abbrev pub after : Disk
    after = (write_sector sector merged d).0

    chunk-length : length chunk ≡ count
    chunk-length = length-slice buf total count fits

    pub merged-length : length merged ≡ sector_size
    merged-length = length-splice loaded _ chunk (omega (arith, chunk-length)) ∙ full

    pub blocks_stay : (l : ℕ) → data_block device after inode l ≡ data_block device d inode l
    blocks_stay l =
        data_block-write rel d inode block (offset % block_size / sector_size) l merged
          (omega arith) (unshared.apart _ block mapped)

    pub IsUnshared-stays : IsUnshared after inode
    IsUnshared-stays = record {
      distinct = λ l l' b p q.
          unshared.distinct l l' b (sym (blocks_stay l) ∙ p) (sym (blocks_stay l') ∙ q);
      apart = λ l b p. unshared.apart l b (sym (blocks_stay l) ∙ p);
    }

    module _ (written : (write_sector sector merged d).1 ≡ ok tt) where
      -- The bytes of the sector that was written.
      in_sector :
          (p : ℕ)
          → p / sector_size ≡ offset / sector_size
          → file_byte device after inode p ≡ or_panic (get_elem? merged (p % sector_size))
      unfolding file_byte
      in_sector p same =
          let same_block : p / block_size ≡ offset / block_size = omega arith in
          let same_sector : sector_of device block p ≡ sector = omega arith in
          rw
            (
              same_block,
              blocks_stay,
              mapped,
              same_sector,
              rel.read_back sector merged d merged-length written,
            )
            refl

      pub bytes_new :
          (j : ℕ)
          → j < count
          → file_byte device after inode (offset + j) ≡ or_panic (get_elem? buf (total + j))
      bytes_new j h =
          in_sector (offset + j) (omega arith)
          ∙ ap or_panic (
              get_elem?-splice_inside loaded (offset % block_size % sector_size) chunk
                ((offset + j) % sector_size) (omega (arith, chunk-length)) (omega arith)
                (omega (arith, chunk-length))
              ∙ ap (get_elem? chunk)
                  {x = (offset + j) % sector_size - offset % block_size % sector_size} {y = j}
                  (omega arith)
              ∙ get_elem?-slice buf total count j h)

      -- A byte of the same sector that the round does not write.
      bytes_kept :
          (p : ℕ)
          → p / sector_size ≡ offset / sector_size
          → (p < offset) ⊎ (offset + count ≤ p)
          → file_byte device after inode p ≡ file_byte device d inode p
      bytes_kept p same out = in_sector p same ∙ ap or_panic (kept out) ∙ sym before
        where
          kept :
              (p < offset) ⊎ (offset + count ≤ p)
              → get_elem? merged (p % sector_size) ≡ get_elem? loaded (p % sector_size)
          kept (inl lo) =
              get_elem?-splice_below loaded _ chunk (p % sector_size) (omega (arith, chunk-length))
                (omega arith)
          kept (inr hi) =
              get_elem?-splice_above loaded _ chunk (p % sector_size) (omega (arith, chunk-length))
                (omega (arith, chunk-length))

          same_block : p / block_size ≡ offset / block_size
          same_block = omega arith

          same_sector : sector_of device block p ≡ sector
          same_sector = omega arith

          before : file_byte device d inode p ≡ or_panic (get_elem? loaded (p % sector_size))
          before = unfold file_byte in rw (same_block, mapped, same_sector, old (omega arith)) refl

    -- The other sectors, whatever became of the write.
    pub bytes_elsewhere :
        (p : ℕ)
        → p / sector_size ≢ offset / sector_size
        → file_byte device after inode p ≡ file_byte device d inode p
    unfolding file_byte
    bytes_elsewhere p ne = elim (Result-cases (data_block device d inode (p / block_size))) [
      | inr (inr q) ↦ rw (blocks_stay, q) refl
      | inr (inl (e, q)) ↦ rw (blocks_stay, q) refl
      | inl (b, q) ↦
          rw (blocks_stay, q, rel.read_other sector (sector_of device b p) merged d (apart b q))
            refl
    ]
      where
        apart :
            (b : ℕ)
            → data_block device d inode (p / block_size) ≡ ok b
            → sector ≢ sector_of device b p
        apart b q e =
            let eq : b ≡ block = omega arith in
            let here =
              unshared.distinct (p / block_size) (offset / block_size) block (q ∙ ap ok eq)
                mapped in
            absurd (omega arith)

    pub bytes_old :
        (write_sector sector merged d).1 ≡ ok tt
        → (p : ℕ) → (p < offset) ⊎ (offset + count ≤ p)
        → file_byte device after inode p ≡ file_byte device d inode p
    bytes_old written p out = elim (ℕ_discrete (p / sector_size) (offset / sector_size)) [
      | yes same ↦ bytes_kept written p same out
      | no ne ↦ bytes_elsewhere p ne
    ]
