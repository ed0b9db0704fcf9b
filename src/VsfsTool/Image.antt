-- ===== src/VsfsTool/Image.antt =====
-- `write_image` and what it calls. The image is its bytes by their offsets; writing to the image file
-- succeeds.
pub mod Marks
pub mod Bitmaps
use efiks_os.Prelude.{
  ℕ, zero, suc, ◌+◌, ◌-◌, ◌*◌, ◌/◌, ◌%◌, ◌^◌, min, bit_or, Bool, true, false, ◌&&◌, List, [], ◌∷◌,
  ◌++◌, length, get_or, Option, none, some, get_elem?, set, slice, splice, take, drop, replicate,
  Result, ok, err, panic, ◌>>=◌, ltb, leb, ◌==◌, if◌then◌else◌,
}
use efiks_os.Vsfs.Layout.{
  block_size, direct_block_count, indirect_block_entries, dirent_size, inode_size, magic, le32,
  words, InodeInner, DirEnt, SuperBlock, FileType, directory, file, encode_inode, encode_dirent,
}
use efiks_os.VsfsTool.{
  ToolError, FsNode, FsNodeKind, FsNodes, fs_node, fs_directory, fs_file, no_nodes, more_nodes,
  nblocks, ninodes, inode_bitmap_block, data_bitmap_block, inode_table_start, inode_table_blocks,
  data_block_start, root_ino,
}
use efiks_os.VsfsTool.Allocate.{count_nodes}
use efiks_os.VsfsTool.Names.{dot, dot_dot}

abbrev pub Image : Type 0
Image = ℕ → ℕ

-- `seek` and `write_all`
abbrev pub write_all : Image → (offset : ℕ) → List ℕ → Image
write_all img offset bytes at =
    if leb offset at && ltb at (offset + length bytes) then get_or bytes (at - offset) 0 else img at

abbrev pub block_offset : ℕ → ℕ
block_offset block = block * block_size

unfoldable pub write_at_block : Image → (block : ℕ) → List ℕ → Result ToolError Image
write_at_block img block bytes =
    if leb (length bytes) block_size then ok (write_all img (block_offset block) bytes) else panic

abbrev pub inode_offset : ℕ → ℕ
inode_offset inum = block_offset inode_table_start + inum * inode_size

abbrev pub superblock : SuperBlock
superblock = record {
  magic_number = magic;
  nblocks = nblocks;
  ninodes = ninodes;
  inode_bitmap_block = inode_bitmap_block;
  data_bitmap_block = data_bitmap_block;
  inode_table_start = inode_table_start;
  inode_table_blocks = inode_table_blocks;
  data_block_start = data_block_start;
}

abbrev pub encode_superblock : SuperBlock → List ℕ
encode_superblock sb = words (
    sb.magic_number ∷ sb.nblocks ∷ sb.ninodes ∷ sb.inode_bitmap_block ∷ sb.data_bitmap_block
    ∷ sb.inode_table_start ∷ sb.inode_table_blocks ∷ sb.data_block_start ∷ [])

unfoldable pub write_superblock : Image → Image
write_superblock img = write_all img (block_offset 0) (encode_superblock superblock)

unfoldable pub set_bit : List ℕ → ℕ → Result ToolError (List ℕ)
set_bit bitmap n = elim (get_elem? bitmap (n / 8)) [
  | none ↦ panic
  | some byte ↦ ok (set bitmap (n / 8) (bit_or byte (2 ^ (n % 8))))
]

unfoldable mutual
  pub visit_nodes :
      (call : FsNode → List ℕ → Result ToolError (List ℕ))
      → FsNode
      → List ℕ
      → Result ToolError (List ℕ)
  visit_nodes call (fs_node inum blocks indirect name kind) bitmap =
      call (fs_node inum blocks indirect name kind) bitmap >>= λ bitmap'.
      visit_kind call kind bitmap'

  pub visit_kind :
      (call : FsNode → List ℕ → Result ToolError (List ℕ))
      → FsNodeKind
      → List ℕ
      → Result ToolError (List ℕ)
  visit_kind call (fs_file bytes) bitmap = ok bitmap
  visit_kind call (fs_directory children) bitmap = visit_children call children bitmap

  pub visit_children :
      (call : FsNode → List ℕ → Result ToolError (List ℕ))
      → FsNodes
      → List ℕ
      → Result ToolError (List ℕ)
  visit_children call no_nodes bitmap = ok bitmap
  visit_children call (more_nodes node rest) bitmap =
      visit_nodes call node bitmap >>= λ bitmap'. visit_children call rest bitmap'

unfoldable pub mark_inode : FsNode → List ℕ → Result ToolError (List ℕ)
mark_inode (fs_node inum blocks indirect name kind) bitmap = set_bit bitmap inum

-- `block - DATA_BLOCK_START` panics below it.
unfoldable pub mark_block : ℕ → List ℕ → Result ToolError (List ℕ)
unfolding set_bit
mark_block block bitmap =
    if ltb block data_block_start then panic else set_bit bitmap (block - data_block_start)

unfoldable pub mark_blocks : List ℕ → List ℕ → Result ToolError (List ℕ)
mark_blocks [] bitmap = ok bitmap
mark_blocks (block ∷ blocks) bitmap =
    mark_block block bitmap >>= λ bitmap'. mark_blocks blocks bitmap'

unfoldable pub mark_data : FsNode → List ℕ → Result ToolError (List ℕ)
unfolding mark_blocks
mark_data (fs_node inum blocks indirect name kind) bitmap = mark_blocks blocks bitmap >>= λ bitmap'.
    if indirect == 0 then ok bitmap' else mark_block indirect bitmap'

abbrev pub empty_bitmap : List ℕ
empty_bitmap = replicate block_size 0

unfoldable pub inode_bitmap : FsNode → Result ToolError (List ℕ)
unfolding visit_nodes mark_inode
inode_bitmap root = visit_nodes mark_inode root empty_bitmap

unfoldable pub data_bitmap : FsNode → Result ToolError (List ℕ)
unfolding visit_nodes mark_data
data_bitmap root = visit_nodes mark_data root empty_bitmap

unfoldable pub write_inode_bitmap : Image → FsNode → Result ToolError Image
unfolding inode_bitmap write_at_block
write_inode_bitmap img root =
    inode_bitmap root >>= λ bitmap. write_at_block img inode_bitmap_block bitmap

unfoldable pub write_data_bitmap : Image → FsNode → Result ToolError Image
unfolding data_bitmap write_at_block
write_data_bitmap img root =
    data_bitmap root >>= λ bitmap. write_at_block img data_bitmap_block bitmap

unfoldable pub direct_blocks : List ℕ → List ℕ
direct_blocks blocks =
    splice (replicate direct_block_count 0) 0 (take (min (length blocks) direct_block_count) blocks)

-- `&node.data_blocks[DIRECT_BLOCKS..]` panics with fewer blocks.
unfoldable pub write_indirect_block :
    Image → (data_blocks : List ℕ) → (indirect : ℕ) → Result ToolError Image
unfolding write_at_block
write_indirect_block img blocks indirect =
    if indirect == 0
    then ok img
    else (let rest = drop direct_block_count blocks in
        if ltb (length blocks) direct_block_count
        then panic
        else (if leb (length rest) indirect_block_entries
            then write_at_block img indirect (splice (replicate block_size 0) 0 (words rest))
            else panic))

unfoldable pub dirent : ℕ → List ℕ → Result ToolError DirEnt
dirent inum name =
    if leb (length name) 27
    then ok (record {
      inum = inum;
      name_len = length name % 256;
      name = splice (replicate 27 0) 0 name;
    })
    else panic

-- The loop over the blocks; `bytes[start..end]` panics where the range ends before it starts.
unfoldable pub write_blocks :
    Image → (blocks : List ℕ) → (block_idx : ℕ) → List ℕ → Result ToolError Image
unfolding write_at_block
write_blocks img [] block_idx bytes = ok img
write_blocks img (block ∷ blocks) block_idx bytes =
    let start = block_idx * block_size in
    let end = min (start + block_size) (length bytes) in
    if ltb end start
    then panic
    else (write_at_block img block (slice bytes start (end - start)) >>= λ img'.
        write_blocks img' blocks (suc block_idx) bytes)

unfoldable pub node_inode : FileType → (sz : ℕ) → (blocks : List ℕ) → (indirect : ℕ) → InodeInner
unfolding direct_blocks
node_inode ty sz blocks indirect = record {
  ty = ty;
  link_count = 1;
  metadata = record { dev = 0; sz = sz % 2 ^ 32 };
  direct_blocks = direct_blocks blocks;
  indirect_block = indirect;
}

write_inode : Image → ℕ → InodeInner → Image
write_inode img inum inode = write_all img (inode_offset inum) (encode_inode inode)

unfoldable pub write_file :
    Image → (inum : ℕ) (blocks : List ℕ) (indirect : ℕ) → List ℕ → Result ToolError Image
unfolding write_inode node_inode write_blocks
write_file img inum blocks indirect bytes =
    write_blocks (write_inode img inum (node_inode file (length bytes) blocks indirect)) blocks 0
      bytes

unfoldable pub write_dir_inode :
    Image → (inum : ℕ) (blocks : List ℕ) (indirect : ℕ) → FsNodes → Image
unfolding write_inode node_inode
write_dir_inode img inum blocks indirect children =
    write_inode img inum
      (node_inode directory ((2 + count_nodes children) * dirent_size) blocks indirect)

-- The bytes of the entries of the children.
unfoldable pub child_entries : FsNodes → Result ToolError (List ℕ)
unfolding dirent
child_entries no_nodes = ok []
child_entries (more_nodes (fs_node inum blocks indirect name kind) rest) =
    dirent inum name >>= λ entry.
    child_entries rest >>= λ entries. ok (encode_dirent entry ++ entries)

unfoldable pub write_dir_blocks :
    Image → (inum : ℕ) (blocks : List ℕ) → (parent_inum : ℕ) → FsNodes → Result ToolError Image
unfolding write_blocks dirent child_entries
write_dir_blocks img inum blocks parent_inum children = dirent inum dot >>= λ here.
    dirent parent_inum dot_dot >>= λ parent. child_entries children >>= λ entries.
    write_blocks img blocks 0 (encode_dirent here ++ (encode_dirent parent ++ entries))

unfoldable mutual
  unfolding write_indirect_block write_file write_dir_inode write_dir_blocks

  pub write_node : Image → FsNode → (parent_inum : ℕ) → Result ToolError Image
  write_node img (fs_node inum blocks indirect name kind) parent_inum =
      write_indirect_block img blocks indirect >>= λ img'.
      write_kind img' kind inum blocks indirect parent_inum

  pub write_kind :
      Image
      → FsNodeKind
      → (inum : ℕ) (blocks : List ℕ) (indirect parent_inum : ℕ) → Result ToolError Image
  write_kind img (fs_file bytes) inum blocks indirect parent_inum =
      write_file img inum blocks indirect bytes
  write_kind img (fs_directory children) inum blocks indirect parent_inum =
      write_dir_blocks (write_dir_inode img inum blocks indirect children) inum blocks parent_inum
        children
      >>= λ img'. write_children img' children inum

  pub write_children : Image → FsNodes → (parent_inum : ℕ) → Result ToolError Image
  write_children img no_nodes parent_inum = ok img
  write_children img (more_nodes node rest) parent_inum =
      write_node img node parent_inum >>= λ img'. write_children img' rest parent_inum

unfoldable pub write_image : FsNode → Result ToolError Image
unfolding write_superblock write_inode_bitmap write_data_bitmap write_node
write_image root = write_inode_bitmap (write_superblock (λ at. 0)) root >>= λ img.
    write_data_bitmap img root >>= λ img'. write_node img' root root_ino
