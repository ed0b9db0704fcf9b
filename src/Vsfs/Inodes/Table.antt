-- ===== src/Vsfs/Inodes/Table.antt =====
-- The inode table of vsfs/src/lib.rs as a map from numbers to inodes.
use native.Mathlib.Decide.{dec_lt, ℕ_discrete}
use efiks_os.Prelude.{
  ℕ, zero, suc, ◌+◌, ◌*◌, ◌/◌, ◌%◌, ◌<◌, ◌≤◌, ◌≡◌, ◌≢◌, refl, sym, ◌∙◌, ap, List, [], ◌∷◌, ◌++◌,
  length, get_or, get_elem?, Result, ok, err, panic, arith, take, drop, splice, ◌>>=◌, le→ltb,
  Result-cases, inl, inr, drop-append, length-splice, length-take, get_elem?-splice_below,
  get_elem?-splice_above, get_elem?-drop,
}
use efiks_os.Vfs.Device.{BlockDevice, VfsError, IsReliable, sector_size}
use efiks_os.Vsfs.Layout.{InodeInner, read32, read_words, inode_size, encode_inode, decode_inode}
use efiks_os.Vsfs.Layout.Roundtrip.{IsEncodable, length-encode_inode, decode_inode-encode_inode}
use efiks_os.Vsfs.Bitmap.Laws.{DeviceError}
use efiks_os.Vsfs.Inodes.{inode_byte_offset, read_inode_from_block, write_inode_to_block}

drop-splice {ℓ} :
    {A : Type ℓ} (xs : List A) (at : ℕ) (src : List A)
    → at ≤ length xs
    → drop at (splice xs at src) ≡ src ++ drop (at + length src) xs
drop-splice xs at src h =
    ap (λ n. drop n (splice xs at src)) {x = at} {y = length (take at xs)}
      (omega (arith, length-take at xs))
    ∙ drop-append (take at xs) (src ++ drop (at + length src) xs)

get_or-get_elem? :
    (xs ys : List ℕ) (i : ℕ) → get_elem? xs i ≡ get_elem? ys i → get_or xs i 0 ≡ get_or ys i 0
get_or-get_elem? [] [] i h = refl
get_or-get_elem? [] (y ∷ ys) zero h = cc
get_or-get_elem? [] (y ∷ ys) (suc i) h = get_or-get_elem? [] ys i h
get_or-get_elem? (x ∷ xs) [] zero h = cc
get_or-get_elem? (x ∷ xs) [] (suc i) h = get_or-get_elem? xs [] i h
get_or-get_elem? (x ∷ xs) (y ∷ ys) zero h = ground arith
get_or-get_elem? (x ∷ xs) (y ∷ ys) (suc i) h = get_or-get_elem? xs ys i h

-- Decoding reads 64 bytes.
module _ (b c : List ℕ) (same : (i : ℕ) → i < 64 → get_or b i 0 ≡ get_or c i 0) where
  read32-same : (i : ℕ) → i + 3 < 64 → read32 b i ≡ read32 c i
  read32-same i h = omega (
    arith,
    same i (omega arith),
    same (i + 1) (omega arith),
    same (i + 2) (omega arith),
    same (i + 3) (omega arith),
  )

  read_words-same : (n i : ℕ) → i + 4 * n ≤ 64 → read_words b i n ≡ read_words c i n
  read_words-same zero i h = refl
  read_words-same (suc n) i h =
      λ k. read32-same i (omega arith) k ∷ read_words-same n (i + 4) (omega arith) k

  decode_inode-same : decode_inode b ≡ decode_inode c
  unfolding decode_inode
  decode_inode-same =
      rw
        (
          same 0 (omega arith),
          same 1 (omega arith),
          same 2 (omega arith),
          same 3 (omega arith),
          read32-same 4 (omega arith),
          read32-same 8 (omega arith),
          read32-same 60 (omega arith),
          read_words-same 12 12 (omega arith),
        )
        refl

module _ (device : BlockDevice) where
  open device use {Disk, read_sector, write_sector}

  module _ (rel : IsReliable device) (d : Disk) (table inum : ℕ) (inode : InodeInner)
      (v : IsEncodable inode) where
    abbrev at : ℕ
    at = inode_byte_offset device table inum

    abbrev bytes : List ℕ
    bytes = encode_inode inode

    -- The number of the inode that was written gives it back; any other number gives what it gave
    -- before.
    written_self :
        (buf : List ℕ)
        → length buf ≡ sector_size
        → decode_inode (drop (at % sector_size) (splice buf (at % sector_size) bytes)) ≡ ok inode
    written_self buf full =
        ap decode_inode (drop-splice buf (at % sector_size) bytes (omega arith))
        ∙ decode_inode-encode_inode inode _ v

    written_other :
        (buf : List ℕ) (other : ℕ)
        → length buf ≡ sector_size
        → other ≢ inum
        → inode_byte_offset device table other / sector_size ≡ at / sector_size
        → decode_inode (
            drop
              (inode_byte_offset device table other % sector_size)
              (splice buf (at % sector_size) bytes))
          ≡ decode_inode (drop (inode_byte_offset device table other % sector_size) buf)
    written_other buf other full ne same = decode_inode-same _ _ λ i h. get_or-get_elem? _ _ i (
        get_elem?-drop (from % sector_size) (splice buf (at % sector_size) bytes) i
        ∙ untouched i h
        ∙ sym (get_elem?-drop (from % sector_size) buf i))
      where
        from : ℕ
        from = inode_byte_offset device table other

        len : length bytes ≡ inode_size
        len = length-encode_inode inode v

        untouched :
            (i : ℕ)
            → i < 64
            → get_elem? (splice buf (at % sector_size) bytes) (from % sector_size + i)
              ≡ get_elem? buf (from % sector_size + i)
        untouched i h = elim (dec_lt other inum) [
          | yes lt ↦
              get_elem?-splice_below buf (at % sector_size) bytes _ (omega (arith, len))
                (omega (arith, len))
          | no ge ↦
              get_elem?-splice_above buf (at % sector_size) bytes _ (omega (arith, len))
                (omega (arith, len))
        ]

    abbrev pub Stores : Disk × Result VfsError (Unit {0}) → Type 0
    Stores (d', ok _) =
        (read_inode_from_block device table inum d' ≡ ok inode)
        × ((other : ℕ)
            → other ≢ inum
            → read_inode_from_block device table other d'
              ≡ read_inode_from_block device table other d)
    Stores (d', err e) = DeviceError device d e
    Stores (d', panic) = ⊥

    abbrev home : ℕ
    home = at / sector_size

    stored-Stores :
        (buf : List ℕ)
        → read_sector home d ≡ ok buf
        → (res : Disk × Result VfsError (Unit {0}))
        → write_sector home (splice buf (at % sector_size) bytes) d ≡ res
        → Stores res
    unfolding read_inode_from_block
    stored-Stores buf loaded (d', panic) e = rel.write_returns home _ d (ap (λ x. x.1) e)
    stored-Stores buf loaded (d', err k) e = inr (home, _, ap (λ x. x.1) e)
    stored-Stores buf loaded (d', ok tt) e = (
      rw (back, ◌>>=◌) (written_self buf full),
      (λ other ne. elim (ℕ_discrete (inode_byte_offset device table other / sector_size) home) [
        | yes same ↦ rw (same, back, loaded, ◌>>=◌) (written_other buf other full ne same)
        | no far ↦
            ap
              (λ r. r >>= λ b.
                decode_inode (drop (inode_byte_offset device table other % sector_size) b))
              (rw (ap (λ x. x.0) e) at (
                rel.read_other home (inode_byte_offset device table other / sector_size)
                  (splice buf (at % sector_size) bytes) d (λ x. far (sym x))))
      ]),
    )
      where
        full : length buf ≡ sector_size
        full = rel.read_length home d loaded

        merged_length : length (splice buf (at % sector_size) bytes) ≡ sector_size
        merged_length =
            length-splice buf (at % sector_size) bytes
              (omega (arith, full, length-encode_inode inode v))
            ∙ full

        back : read_sector home d' ≡ ok (splice buf (at % sector_size) bytes)
        back = rw (ap (λ x. x.0) e) at (
            rel.read_back home (splice buf (at % sector_size) bytes) d merged_length
              (ap (λ x. x.1) e))

    -- Writing an inode whose fields fit into the table, on a reliable device: afterwards its number reads back that inode, and every other
    -- number reads what it read before, in the same sector too. It fails by an error of the device
    -- only, and does not panic.
    pub write_inode_to_block-Stores : Stores (write_inode_to_block device table inum inode d)
    unfolding write_inode_to_block
    write_inode_to_block-Stores =
        let fits =
          le→ltb sector_size (at % sector_size + length bytes)
            (omega (arith, length-encode_inode inode v)) in
        elim (Result-cases (read_sector home d)) [
          | inr (inr p) ↦ absurd (rel.read_returns home d p)
          | inr (inl (e, p)) ↦ rw (fits, p, write_inode_to_block) (inl (home, p))
          | inl (buf, p) ↦ rw (fits, p, write_inode_to_block) (stored-Stores buf p _ refl)
        ]
