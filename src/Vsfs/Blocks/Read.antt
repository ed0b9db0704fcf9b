-- ===== src/Vsfs/Blocks/Read.antt =====
-- `read` of `impl VNode for INode` against the bytes that the blocks hold.
use efiks_os.Prelude.{
  ℕ, ◌+◌, ◌-◌, ◌/◌, ◌%◌, ◌≤◌, ◌<◌, ◌≡◌, List, length, get_elem?, splice, slice, Result, ok, err,
  panic, or_panic,
}
use efiks_os.Vfs.Device.{BlockDevice, VfsError, IsReliable, sector_size}
use efiks_os.Vsfs.Layout.{InodeInner, block_size}
use efiks_os.Vsfs.Blocks.{data_block, sector_of}
use efiks_os.Vsfs.Blocks.Contents.{file_byte}

module _ (device : BlockDevice) where
  open device use {Disk, read_sector}

  module _ (d : Disk) (inode : InodeInner) where
    -- `buf'` is `buf` with the file's bytes from `offset` on put at the indices from `total` up to
    -- `n`. Short of `remaining` bytes, the next byte lies in no block.
    pub record Transferred (offset total remaining : ℕ) (buf : List ℕ) (n : ℕ) (buf' : List ℕ)
        : Type 0 where
      pub at_least : total ≤ n
      pub at_most : n ≤ total + remaining
      pub same_length : length buf' ≡ length buf
      pub bytes :
          (j : ℕ)
          → total + j < n
          → or_panic (get_elem? buf' (total + j)) ≡ file_byte device d inode (offset + j)
      pub below : (i : ℕ) → i < total → get_elem? buf' i ≡ get_elem? buf i
      pub above : (i : ℕ) → n ≤ i → get_elem? buf' i ≡ get_elem? buf i
      pub short :
          n < total + remaining
          → (e : VfsError) × (data_block device d inode ((offset + (n - total)) / block_size)
              ≡ err e)

    abbrev pub Reads : (offset total remaining : ℕ) → List ℕ → Result VfsError ℕ × List ℕ → Type 0
    Reads offset total remaining buf (ok n, buf') = Transferred offset total remaining buf n buf'
    Reads offset total remaining buf (err e, buf') =
        (length buf' ≡ length buf)
        × ((i : ℕ) → i < total → get_elem? buf' i ≡ get_elem? buf i)
        × ((i : ℕ) → total + remaining ≤ i → get_elem? buf' i ≡ get_elem? buf i)
    Reads offset total remaining buf (panic, buf') = ⊥

    -- One round: `count` bytes of the sector go to `buf[total..total + count]`.
    module _ (rel : IsReliable device) (offset total count : ℕ) (block : ℕ) (buf sector : List ℕ)
        (mapped : data_block device d inode (offset / block_size) ≡ ok block)
        (loaded : read_sector (sector_of device block offset) d ≡ ok sector)
        (inside : offset % block_size % sector_size + count ≤ sector_size)
        (fits : total + count ≤ length buf) where
      abbrev chunk : List ℕ
      chunk = slice sector (offset % block_size % sector_size) count

      abbrev next : List ℕ
      next = splice buf total chunk
