-- ===== src/Vsfs/Inodes.antt =====
-- vsfs/src/lib.rs: the inode table and the inode cache (`read_inode`, `read_inode_from_block`,
-- `write_inode_to_block`, `write_dirent`) and the scan of a directory (`lookup_path_inner`).
-- An inode object is known by its number: the cache holds one shared object for each number, and
-- nothing takes an entry out of it.
pub mod Table
pub mod Scan
pub mod Lookup
use efiks_os.Prelude.{
  ℕ, zero, suc, ◌+◌, ◌*◌, ◌/◌, ◌%◌, ◌≤◌, Bool, true, false, ◌||◌, ◌&&◌, List, [], ◌∷◌, Option, none,
  some, length, take, drop, slice, splice, Result, ok, err, panic, ◌>>=◌, ◌>>◌, guard, or_panic,
  ltb, leb, ◌==◌, if◌then◌else◌,
}
use efiks_os.Vfs.Device.{BlockDevice, VfsError, fs, not_found, sector_size}
use efiks_os.Vsfs.Layout.{
  InodeInner, DirEnt, SuperBlock, is_directory, inode_size, dirent_size, block_size,
  sectors_per_block, encode_inode, decode_inode, encode_dirent, decode_dirent,
}
use efiks_os.Vsfs.Blocks.{data_block}

abbrev pub Cache : Type 0
Cache = List (ℕ × InodeInner)

unfoldable pub cached : ℕ → Cache → Option InodeInner
cached inum [] = none
cached inum ((n, inode) ∷ cache) = if n == inum then some inode else cached inum cache

-- `*guard = inode` on the shared object, or `insert` of a new one.
unfoldable pub put : ℕ → InodeInner → Cache → Cache
put inum inode [] = (inum, inode) ∷ []
put inum inode ((n, old) ∷ cache) =
    if n == inum then (n, inode) ∷ cache else (n, old) ∷ put inum inode cache

abbrev pub same_bytes : List ℕ → List ℕ → Bool
same_bytes [] [] = true
same_bytes [] (y ∷ ys) = false
same_bytes (x ∷ xs) [] = false
same_bytes (x ∷ xs) (y ∷ ys) = if x == y then same_bytes xs ys else false

module _ (device : BlockDevice) where
  open device use {Disk, read_sector, write_sector}

  -- `Vsfs`, with the state of the disk under it.
  pub record Vsfs : Type 0 where
    pub superblock : SuperBlock
    pub inode_cache : Cache
    pub disk : Disk

  abbrev pub inode_byte_offset : ℕ → ℕ → ℕ
  inode_byte_offset inode_table_start inum = inode_table_start * block_size + inum * inode_size

  unfoldable pub read_inode_from_block : ℕ → ℕ → Disk → Result VfsError InodeInner
  read_inode_from_block inode_table_start inum d =
      let at = inode_byte_offset inode_table_start inum in
      read_sector (at / sector_size) d >>= λ buf. decode_inode (drop (at % sector_size) buf)

  unfoldable pub write_inode_to_block :
      ℕ → ℕ → InodeInner → Disk → Disk × Result VfsError (Unit {0})
  write_inode_to_block inode_table_start inum inode d =
      let at = inode_byte_offset inode_table_start inum in
      let bytes = encode_inode inode in
      if ltb sector_size (at % sector_size + length bytes)
      then (d, err fs)
      else elim (read_sector (at / sector_size) d) [
        | ok buf ↦ write_sector (at / sector_size) (splice buf (at % sector_size) bytes) d
        | err e ↦ (d, err e)
        | panic ↦ (d, panic)
      ]

  unfoldable pub write_dirent : ℕ → ℕ → DirEnt → Disk → Disk × Result VfsError (Unit {0})
  write_dirent block block_offset dirent d =
      let sector_idx = block_offset / sector_size in
      let sector_offset = block_offset % sector_size in
      let bytes = encode_dirent dirent in
      if leb sectors_per_block sector_idx || ltb sector_size (sector_offset + length bytes)
      then (d, err fs)
      else elim (read_sector (block * sectors_per_block + sector_idx) d) [
        | ok buf ↦
            write_sector (block * sectors_per_block + sector_idx) (splice buf sector_offset bytes) d
        | err e ↦ (d, err e)
        | panic ↦ (d, panic)
      ]

  -- The second half of a miss: the lock is taken again, and an entry that another thread made in
  -- the meantime is kept.
  insert_if_vacant : ℕ → InodeInner → Cache → Cache
  insert_if_vacant inum inode cache = elim (cached inum cache) [
    | none ↦ (inum, inode) ∷ cache
    | some _ ↦ cache
  ]

  -- `during` is what other threads do to the cache while a miss reads the disk with the lock
  -- dropped.
  unfoldable pub read_inode_during : (Cache → Cache) → ℕ → Vsfs → Vsfs × Result VfsError ℕ
  unfolding insert_if_vacant
  read_inode_during during inum s = elim (cached inum s.inode_cache) [
    | some _ ↦ (s, ok inum)
    | none ↦ elim (read_inode_from_block s.superblock.inode_table_start inum s.disk) [
      | ok inode ↦
          (record s { inode_cache = insert_if_vacant inum inode (during s.inode_cache) }, ok inum)
      | err e ↦ (record s { inode_cache = during s.inode_cache }, err e)
      | panic ↦ (record s { inode_cache = during s.inode_cache }, panic)
    ]
  ]

  unfoldable pub read_inode : ℕ → Vsfs → Vsfs × Result VfsError ℕ
  unfolding read_inode_during
  read_inode = read_inode_during (λ cache. cache)

  -- One round of the scan: the entry at `dirent_idx`, checked.
  unfoldable pub read_dirent : Disk → InodeInner → ℕ → Result VfsError DirEnt
  read_dirent d inode dirent_idx = do
    let dirent_offset = dirent_idx * dirent_size
    let block_offset = dirent_offset % block_size
    block ← data_block device d inode (dirent_offset / block_size)
    buf ← read_sector (block * sectors_per_block + block_offset / sector_size) d
    let dirent = decode_dirent (drop (block_offset % sector_size) buf)
    guard (leb dirent.name_len 27) fs
    ok dirent

  abbrev pub names : DirEnt → List ℕ → Bool
  names dirent path = same_bytes (take dirent.name_len dirent.name) path

  -- The scan of `count` entries from `dirent_idx` on, up to the inode number of the match.
  unfoldable pub scan : Disk → InodeInner → List ℕ → (dirent_idx count : ℕ) → Result VfsError ℕ
  unfolding read_dirent
  scan d inode path dirent_idx zero = err not_found
  scan d inode path dirent_idx (suc count) = elim (read_dirent d inode dirent_idx) [
    | err e ↦ err e
    | panic ↦ panic
    | ok dirent ↦ elim (names dirent path) [
      | true ↦ ok dirent.inum
      | false ↦ scan d inode path (suc dirent_idx) count
    ]
  ]

  unfoldable pub lookup_path_inner : InodeInner → List ℕ → Vsfs → Vsfs × Result VfsError ℕ
  unfolding scan read_inode
  lookup_path_inner inode path s =
      if is_directory inode.ty && inode.metadata.sz % dirent_size == 0
      then (elim (scan s.disk inode path 0 (inode.metadata.sz / dirent_size)) [
        | ok inum ↦ read_inode inum s
        | err e ↦ (s, err e)
        | panic ↦ (s, panic)
      ])
      else (s, err fs)
