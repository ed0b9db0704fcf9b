-- ===== src/Vsfs/Layout/Roundtrip.antt =====
-- The bytes of the on-disk structures give the structures back.
use mathlib.Core.List.{append_assoc}
use efiks_os.Prelude.{
  ℕ, ◌+◌, ◌*◌, ◌/◌, ◌%◌, ◌^◌, ◌<◌, ◌≡◌, refl, sym, ◌∙◌, ap, List, [], ◌∷◌, ◌++◌, length, get_or,
  All, get_or-append, length-append, ok, arith,
}
use efiks_os.Vsfs.Layout.{
  InodeInner, directory, file, le32, le16, read32, words, read_words, type_of_tag, type_tag,
  encode_inode, decode_inode, direct_block_count, FileType, inode_size,
}

-- The fields fit their widths, and there are 12 direct blocks.
pub record IsEncodable (inode : InodeInner) : Type 0 where
  pub links : inode.link_count < 2 ^ 16
  pub device_id : inode.metadata.dev < 2 ^ 32
  pub size : inode.metadata.sz < 2 ^ 32
  pub direct : All (λ b. b < 2 ^ 32) inode.direct_blocks
  pub twelve : length inode.direct_blocks ≡ direct_block_count
  pub indirect : inode.indirect_block < 2 ^ 32

read16-le16 : (x : ℕ) → x < 2 ^ 16 → x % 256 + x / 256 % 256 * 256 ≡ x
read16-le16 x h = omega arith

read32-le32 :
    (x : ℕ)
    → x < 2 ^ 32
    → x % 256 + x / 256 % 256 * 256 + x / 2 ^ 16 % 256 * 2 ^ 16 + x / 2 ^ 24 % 256 * 2 ^ 24 ≡ x
read32-le32 x h = omega arith

-- A word behind a prefix.
read32-append :
    (pre rest : List ℕ) (x : ℕ) → x < 2 ^ 32 → read32 (pre ++ (le32 x ++ rest)) (length pre) ≡ x
read32-append pre rest x h = omega (
  arith,
  get_or-append pre (le32 x ++ rest) 0 0,
  ap (λ k. get_or (pre ++ (le32 x ++ rest)) k 0) {x = length pre + 0} {y = length pre}
      (omega arith),
  get_or-append pre (le32 x ++ rest) 1 0,
  get_or-append pre (le32 x ++ rest) 2 0,
  get_or-append pre (le32 x ++ rest) 3 0,
)

read_words-append :
    (pre xs rest : List ℕ)
    → All (λ x. x < 2 ^ 32) xs
    → read_words (pre ++ (words xs ++ rest)) (length pre) (length xs) ≡ xs
read_words-append pre [] rest h = refl
read_words-append pre (x ∷ xs) rest (hx, hxs) =
    λ i. head i ∷ tail (read_words-append (pre ++ le32 x) xs rest hxs) i
  where
    next : pre ++ (le32 x ++ (words xs ++ rest)) ≡ (pre ++ le32 x) ++ (words xs ++ rest)
    next = sym (append_assoc pre (le32 x) (words xs ++ rest))

    head : read32 (pre ++ (words (x ∷ xs) ++ rest)) (length pre) ≡ x
    head = read32-append pre (words xs ++ rest) x hx

    tail :
        read_words ((pre ++ le32 x) ++ (words xs ++ rest)) (length (pre ++ le32 x)) (length xs) ≡ xs
        → read_words (pre ++ (words (x ∷ xs) ++ rest)) (length pre + 4) (length xs) ≡ xs
    tail ih =
        ap (λ k. read_words (pre ++ (le32 x ++ (words xs ++ rest))) k (length xs))
          {x = length pre + 4} {y = length (pre ++ le32 x)}
          (omega (arith, length-append pre (le32 x)))
        ∙ ap (λ b. read_words b (length (pre ++ le32 x)) (length xs)) next
        ∙ ih

length-words : (xs : List ℕ) → length (words xs) ≡ 4 * length xs
length-words [] = refl
length-words (x ∷ xs) = omega (arith, length-words xs)

type_of_tag-type_tag :
    (ty : FileType) → type_of_tag (type_tag ty % 256 + type_tag ty / 256 % 256 * 256) ≡ ok ty
type_of_tag-type_tag directory = refl
type_of_tag-type_tag file = refl

pub length-encode_inode :
    (inode : InodeInner) → IsEncodable inode → length (encode_inode inode) ≡ inode_size
unfolding encode_inode
length-encode_inode inode v = omega (
  arith,
  length-append (words inode.direct_blocks) (le32 inode.indirect_block),
  length-words inode.direct_blocks,
  v.twelve,
)

-- The first 12 bytes.
abbrev header : InodeInner → List ℕ
header inode =
    le16 (type_tag inode.ty)
    ++ (le16 inode.link_count ++ (le32 inode.metadata.dev ++ le32 inode.metadata.sz))

-- An inode with 12 direct blocks whose fields fit their widths: whatever bytes follow its encoding,
-- decoding gives the inode back.
pub decode_inode-encode_inode :
    (inode : InodeInner) (rest : List ℕ)
    → IsEncodable inode
    → decode_inode (encode_inode inode ++ rest) ≡ ok inode
unfolding encode_inode decode_inode
decode_inode-encode_inode inode rest v =
    rw (tail, type_of_tag-type_tag inode.ty)
      λ i. ok (record {
        ty = inode.ty;
        link_count = read16-le16 inode.link_count v.links i;
        metadata = record {
          dev = read32-le32 inode.metadata.dev v.device_id i;
          sz = read32-le32 inode.metadata.sz v.size i;
        };
        direct_blocks = direct i;
        indirect_block = indirect i;
      })
  where
    tail :
        (words inode.direct_blocks ++ le32 inode.indirect_block) ++ rest
        ≡ words inode.direct_blocks ++ (le32 inode.indirect_block ++ rest)
    tail = append_assoc (words inode.direct_blocks) (le32 inode.indirect_block) rest

    stored : List ℕ
    stored = header inode ++ (words inode.direct_blocks ++ (le32 inode.indirect_block ++ rest))

    direct : read_words stored 12 direct_block_count ≡ inode.direct_blocks
    direct =
        ap (read_words stored 12) (sym v.twelve)
        ∙ read_words-append (header inode) inode.direct_blocks (le32 inode.indirect_block ++ rest)
            v.direct

    indirect : read32 stored 60 ≡ inode.indirect_block
    indirect =
        ap (read32 stored) {x = 60} {y = length (header inode ++ words inode.direct_blocks)}
          (omega (arith, length-words inode.direct_blocks, v.twelve))
        ∙ ap (λ b. read32 b (length (header inode ++ words inode.direct_blocks)))
            (sym (
              append_assoc (header inode) (words inode.direct_blocks)
                (le32 inode.indirect_block ++ rest)))
        ∙ read32-append (header inode ++ words inode.direct_blocks) rest inode.indirect_block
            v.indirect
