-- ===== src/Vsfs/Layout.antt =====
-- vsfs/src/lib.rs: the constants and the on-disk structures, with the bytes that `read_unaligned`
-- and `from_raw_parts` see (`repr(C)`, little endian).
use Prim.Native.Nat.{compare}
pub mod Roundtrip
use efiks_os.Prelude.{
  ℕ, zero, suc, ◌+◌, ◌*◌, ◌/◌, ◌%◌, ◌^◌, Bool, true, false, List, [], ◌∷◌, ◌++◌, get_or, slice,
  take, Result, ok, panic, ◌>>=◌, ◌==◌, if◌then◌else◌,
}
use efiks_os.Vfs.Device.{VfsError, sector_size}

abbrev pub magic : ℕ
magic = 0x5653_4653

abbrev pub block_size : ℕ
block_size = 4096

abbrev pub sectors_per_block : ℕ
sectors_per_block = block_size / sector_size

abbrev pub direct_block_count : ℕ
direct_block_count = 12

abbrev pub indirect_block_entries : ℕ
indirect_block_entries = block_size / 4

pub data FileType : Type 0 where
  directory file : FileType

pub record Metadata : Type 0 where
  pub dev : ℕ
  pub sz : ℕ

pub record InodeInner : Type 0 where
  pub ty : FileType
  pub link_count : ℕ
  pub metadata : Metadata
  pub direct_blocks : List ℕ
  pub indirect_block : ℕ

pub record DirEnt : Type 0 where
  pub inum : ℕ
  pub name_len : ℕ
  pub name : List ℕ

pub record SuperBlock : Type 0 where
  pub magic_number : ℕ
  pub nblocks : ℕ
  pub ninodes : ℕ
  pub inode_bitmap_block : ℕ
  pub data_bitmap_block : ℕ
  pub inode_table_start : ℕ
  pub inode_table_blocks : ℕ
  pub data_block_start : ℕ

-- `size_of`
abbrev pub inode_size : ℕ
inode_size = 64

abbrev pub dirent_size : ℕ
dirent_size = 32

abbrev pub le16 : ℕ → List ℕ
le16 x = (x % 256) ∷ (x / 256 % 256) ∷ []

abbrev pub le32 : ℕ → List ℕ
le32 x = (x % 256) ∷ (x / 256 % 256) ∷ (x / 2 ^ 16 % 256) ∷ (x / 2 ^ 24 % 256) ∷ []

-- The bytes at `i` and the one or three behind it, as a number.
abbrev pub read16 : List ℕ → ℕ → ℕ
read16 b i = get_or b i 0 + get_or b (i + 1) 0 * 256

abbrev pub read32 : List ℕ → ℕ → ℕ
read32 b i =
    get_or b i 0
    + get_or b (i + 1) 0 * 256
    + get_or b (i + 2) 0 * 2 ^ 16
    + get_or b (i + 3) 0 * 2 ^ 24

abbrev pub is_directory : FileType → Bool
is_directory directory = true
is_directory file = false

-- The discriminants of `Type`.
abbrev pub type_tag : FileType → ℕ
type_tag directory = 1
type_tag file = 2

-- A tag that is no discriminant is undefined behaviour of `read_unaligned`.
abbrev pub type_of_tag : ℕ → Result VfsError FileType
type_of_tag n = if n == 1 then ok directory else if n == 2 then ok file else panic

abbrev pub words : List ℕ → List ℕ
words [] = []
words (x ∷ xs) = le32 x ++ words xs

abbrev pub read_words : List ℕ → ℕ → ℕ → List ℕ
read_words b i zero = []
read_words b i (suc n) = read32 b i ∷ read_words b (i + 4) n

-- The bytes of the `repr(C)` structure `INodeInner`, which the source copies as they lie in memory: the
-- fields in their order, without gaps.
unfoldable pub encode_inode : InodeInner → List ℕ
encode_inode inode =
    le16 (type_tag inode.ty)
    ++ (le16 inode.link_count
        ++ (le32 inode.metadata.dev
            ++ (le32 inode.metadata.sz
                ++ (words inode.direct_blocks ++ le32 inode.indirect_block))))

unfoldable pub decode_inode : List ℕ → Result VfsError InodeInner
decode_inode b = do
  ty ← type_of_tag (read16 b 0)
  ok (record {
    ty = ty;
    link_count = read16 b 2;
    metadata = record { dev = read32 b 4; sz = read32 b 8 };
    direct_blocks = read_words b 12 direct_block_count;
    indirect_block = read32 b 60;
  })

unfoldable pub encode_dirent : DirEnt → List ℕ
encode_dirent e = le32 e.inum ++ ((e.name_len % 256) ∷ e.name)

unfoldable pub decode_dirent : List ℕ → DirEnt
decode_dirent b = record { inum = read32 b 0; name_len = get_or b 4 0; name = slice b 5 27 }

unfoldable pub decode_superblock : List ℕ → SuperBlock
decode_superblock b = record {
  magic_number = read32 b 0;
  nblocks = read32 b 4;
  ninodes = read32 b 8;
  inode_bitmap_block = read32 b 12;
  data_bitmap_block = read32 b 16;
  inode_table_start = read32 b 20;
  inode_table_blocks = read32 b 24;
  data_block_start = read32 b 28;
}
