-- ===== src/VsfsTool/Tests.antt =====
-- The layout that the tool has without an input.
use efiks_os.Prelude.{ℕ, ◌+◌, ◌≡◌, refl, List, [], ◌∷◌, ok}
use efiks_os.VsfsTool.{
  LayoutNode, layout_node, layout_directory, layout_file, no_layouts, more_layouts, FsNode, fs_node,
  fs_directory, fs_file, no_nodes, more_nodes, root_ino, data_block_start,
}
use efiks_os.VsfsTool.Allocate.{
  allocate_layout, allocate_node, allocate_node_blocks, allocate_blocks, blocks_needed, range,
}
use efiks_os.VsfsTool.Allocate.Laws.{inums, blocks_of}
use efiks_os.VsfsTool.Image.{inode_bitmap, data_bitmap}
use efiks_os.VsfsTool.Image.Bitmaps.{SetBetween, bitmaps-SetBetween}

abbrev foo : List ℕ
foo = b'f' ∷ b'o' ∷ b'o' ∷ []

abbrev bar : List ℕ
bar = b'b' ∷ b'a' ∷ b'r' ∷ []

abbrev hello : List ℕ
hello = b'h' ∷ b'e' ∷ b'l' ∷ b'l' ∷ b'o' ∷ []

abbrev default_layout : LayoutNode
default_layout = layout_node [] (
    layout_directory (
      more_layouts
        (layout_node foo
          (layout_directory (more_layouts (layout_node bar (layout_file hello)) no_layouts)))
        no_layouts))

abbrev default_fs : FsNode
default_fs = fs_node 1 (10 ∷ []) 0 [] (
    fs_directory (
      more_nodes
        (fs_node 2 (9 ∷ []) 0 foo
          (fs_directory (more_nodes (fs_node 3 (8 ∷ []) 0 bar (fs_file hello)) no_nodes)))
        no_nodes))

default_allocated : allocate_layout default_layout ≡ ok default_fs
unfolding allocate_layout allocate_node allocate_node_blocks allocate_blocks blocks_needed
default_allocated = refl

bitmaps-SetBetween_example :
    (n m : ℕ) × (inodes blocks : List ℕ) × (inums default_fs ≡ range root_ino n)
    × (blocks_of default_fs ≡ range data_block_start m)
    × (inode_bitmap default_fs ≡ ok inodes)
    × (data_bitmap default_fs ≡ ok blocks)
    × SetBetween inodes 1 (1 + n)
    × SetBetween blocks 0 m
bitmaps-SetBetween_example = bitmaps-SetBetween default_layout default_fs default_allocated
