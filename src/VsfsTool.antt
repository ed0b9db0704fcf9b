-- ===== src/VsfsTool.antt =====
-- vsfs/src/bin/vsfs-tool.rs: the tool that makes a file system image out of a tree of directories and
-- files. Names and paths are their bytes. An error is told by its case, without the words of its message.
pub mod Names
pub mod Json
pub mod Allocate
pub mod Image
mod Tests
use efiks_os.Prelude.{ℕ, List}

abbrev pub max_data_blocks : ℕ
max_data_blocks = 1036

abbrev pub nblocks : ℕ
nblocks = 128

abbrev pub ninodes : ℕ
ninodes = 80

abbrev pub inode_bitmap_block : ℕ
inode_bitmap_block = 1

abbrev pub data_bitmap_block : ℕ
data_bitmap_block = 2

abbrev pub inode_table_start : ℕ
inode_table_start = 3

abbrev pub inode_table_blocks : ℕ
inode_table_blocks = 5

abbrev pub data_block_start : ℕ
data_block_start = 8

abbrev pub root_ino : ℕ
root_ino = 1

pub data ToolError : Type 0 where
  invalid_component long_name not_contained duplicate_name bad_type bad_root bad_path dotted_path
        too_many_inodes too_many_blocks large_node block_overflow missing_source :
      ToolError

mutual
  pub data LayoutNode : Type 0 where
    layout_node : (name : List ℕ) → LayoutKind → LayoutNode

  pub data LayoutKind : Type 0 where
    layout_directory : (children : LayoutNodes) → LayoutKind
    layout_file : (bytes : List ℕ) → LayoutKind

  pub data LayoutNodes : Type 0 where
    no_layouts : LayoutNodes
    more_layouts : LayoutNode → LayoutNodes → LayoutNodes

mutual
  pub data FsNode : Type 0 where
    fs_node :
        (inum : ℕ) (data_blocks : List ℕ) (indirect_block : ℕ) (name : List ℕ) → FsNodeKind → FsNode

  pub data FsNodeKind : Type 0 where
    fs_directory : (children : FsNodes) → FsNodeKind
    fs_file : (bytes : List ℕ) → FsNodeKind

  pub data FsNodes : Type 0 where
    no_nodes : FsNodes
    more_nodes : FsNode → FsNodes → FsNodes
