-- ===== src/VsfsTool/Allocate.antt =====
-- `allocate_layout`: the nodes get inodes and data blocks, from two counters. The counters are passed
-- on with the result; on an error the tool ends.
pub mod Laws
use efiks_os.Prelude.{
  ℕ, zero, suc, ◌+◌, ◌-◌, ◌*◌, ◌/◌, ◌%◌, ◌^◌, Bool, true, false, List, [], ◌∷◌, ◌++◌, length,
  Result, ok, err, panic, ◌>>=◌, ltb, leb, ◌==◌, if◌then◌else◌,
}
use efiks_os.Vsfs.Layout.{block_size, direct_block_count, dirent_size}
use efiks_os.VsfsTool.{
  ToolError, too_many_inodes, too_many_blocks, large_node, block_overflow, LayoutNode, LayoutKind,
  LayoutNodes, layout_node, layout_directory, layout_file, no_layouts, more_layouts, FsNode,
  FsNodes, fs_node, fs_directory, fs_file, no_nodes, more_nodes, max_data_blocks, nblocks, ninodes,
  root_ino, data_block_start,
}

-- `(from..from + count)`
abbrev pub range : (from count : ℕ) → List ℕ
range from zero = []
range from (suc count) = from ∷ range (suc from) count

unfoldable pub blocks_needed : ℕ → ℕ
blocks_needed bytes = if bytes == 0 then 0 else (bytes + (block_size - 1)) / block_size

unfoldable pub allocate_blocks : (count next_data_block : ℕ) → Result ToolError (List ℕ × ℕ)
allocate_blocks count next_data_block =
    let end_block = next_data_block + count % 2 ^ 32 in
    if leb (2 ^ 32) end_block
    then err block_overflow
    else (if ltb nblocks end_block
        then err too_many_blocks
        else ok (range next_data_block (end_block - next_data_block), end_block))

abbrev pub first_block : List ℕ × ℕ → Result ToolError (ℕ × ℕ)
first_block ([], next) = panic
first_block (block ∷ blocks, next) = ok (block, next)

-- The blocks and the indirect block of a node.
unfoldable pub allocate_node_blocks :
    (count next_data_block : ℕ) → Result ToolError (List ℕ × ℕ × ℕ)
unfolding allocate_blocks
allocate_node_blocks count next_data_block =
    if ltb max_data_blocks count
    then err large_node
    else (allocate_blocks count next_data_block >>= λ (blocks, next).
        if ltb direct_block_count count
        then (allocate_blocks 1 next >>= first_block >>= λ (indirect, next').
            ok (blocks, indirect, next'))
        else ok (blocks, 0, next))

abbrev pub count_nodes : FsNodes → ℕ
count_nodes no_nodes = 0
count_nodes (more_nodes node rest) = suc (count_nodes rest)

unfoldable mutual
  unfolding allocate_node_blocks blocks_needed

  pub allocate_node :
      LayoutNode → (next_inum next_data_block : ℕ) → Result ToolError (FsNode × ℕ × ℕ)
  allocate_node (layout_node name kind) next_inum next_data_block =
      let node = allocate_kind kind next_inum name (suc next_inum) next_data_block in
      if leb ninodes next_inum then err too_many_inodes else node

  pub allocate_kind :
      LayoutKind
      → (inum : ℕ) (name : List ℕ) (next_inum next_data_block : ℕ)
      → Result ToolError (FsNode × ℕ × ℕ)
  allocate_kind (layout_directory children) inum name next_inum next_data_block =
      allocate_children children next_inum next_data_block >>= λ (nodes, i, d).
      allocate_node_blocks (blocks_needed ((2 + count_nodes nodes) * dirent_size)) d
      >>= λ (blocks, indirect, d').
          ok (fs_node inum blocks indirect name (fs_directory nodes), i, d')
  allocate_kind (layout_file bytes) inum name next_inum next_data_block =
      allocate_node_blocks (blocks_needed (length bytes)) next_data_block
      >>= λ (blocks, indirect, d').
          ok (fs_node inum blocks indirect name (fs_file bytes), next_inum, d')

  pub allocate_children :
      LayoutNodes → (next_inum next_data_block : ℕ) → Result ToolError (FsNodes × ℕ × ℕ)
  allocate_children no_layouts next_inum next_data_block = ok (no_nodes, next_inum, next_data_block)
  allocate_children (more_layouts child rest) next_inum next_data_block =
      allocate_node child next_inum next_data_block >>= λ (node, i, d).
      allocate_children rest i d >>= λ (nodes, i', d'). ok (more_nodes node nodes, i', d')

abbrev pub allocated_root : FsNode × ℕ × ℕ → FsNode
allocated_root (node, _, _) = node

unfoldable pub allocate_layout : LayoutNode → Result ToolError FsNode
unfolding allocate_node
allocate_layout layout =
    allocate_node layout root_ino data_block_start >>= λ r. ok (allocated_root r)
