-- ===== src/Vsfs/Blocks/WriteLoop.antt =====
-- `write` of `impl VNode for INode` against the bytes that the blocks hold.
use efiks_os.Prelude.{
  ℕ, zero, suc, ◌+◌, ◌-◌, ◌/◌, ◌%◌, ◌≤◌, ◌<◌, min, ◌≡◌, ◌≢◌, refl, sym, ◌∙◌, ap, List, length,
  get_elem?, Option, none, some, ◌||◌, false, replicate, Result, ok, err, panic, or_panic, leb,
  ◌==◌, arith, Bool-cases, inl, inr, Result-cases, lt→ltb, ◌⊎◌,
}
use native.Mathlib.Decide.{dec_lt}
use efiks_os.Vfs.Device.{BlockDevice, VfsError, IsReliable, sector_size}
use efiks_os.Vsfs.Layout.{InodeInner, block_size, is_directory}
use efiks_os.Vsfs.Blocks.{data_block, sector_of, write_loop, load_sector, write, stop}
use efiks_os.Vsfs.Blocks.Contents.{
  IsInode, IsMapped, file_byte, map_block-data_block, data_block-ne-panic,
}
use efiks_os.Vsfs.Blocks.Write.{
  IsUnshared, merged, blocks_stay, IsUnshared-stays, bytes_new, bytes_old, merged-length,
}

module _ (device : BlockDevice) where
  open device use {Disk, read_sector, write_sector}

  module _ (inode : InodeInner) (buf : List ℕ) where
    -- From the disk `d` to `d'`, the file's bytes from `offset` on are those of `buf` from `total` up
    -- to `n`, all its other bytes are as before, and no block is moved. Short of `remaining` bytes,
    -- the next byte lies in no block.
    pub record Stored (d : Disk) (offset total remaining n : ℕ) (d' : Disk) : Type 0 where
      pub at_least : total ≤ n
      pub at_most : n ≤ total + remaining
      pub blocks : (l : ℕ) → data_block device d' inode l ≡ data_block device d inode l
      pub bytes :
          (j : ℕ)
          → total + j < n
          → file_byte device d' inode (offset + j) ≡ or_panic (get_elem? buf (total + j))
      pub others :
          (p : ℕ)
          → (p < offset) ⊎ (offset + (n - total) ≤ p)
          → file_byte device d' inode p ≡ file_byte device d inode p
      pub short :
          n < total + remaining
          → (e : VfsError) × (data_block device d inode ((offset + (n - total)) / block_size)
              ≡ err e)

    abbrev pub Writes : Disk → (offset total remaining : ℕ) → Disk × Result VfsError ℕ → Type 0
    Writes d offset total remaining (d', ok n) = Stored d offset total remaining n d'
    Writes d offset total remaining (d', err e) =
        (l : ℕ) → data_block device d' inode l ≡ data_block device d inode l
    Writes d offset total remaining (d', panic) = ⊥

    nothing-Writes :
        (d : Disk) (offset total remaining : ℕ)
        → remaining ≡ 0
        → Stored d offset total remaining total d
    nothing-Writes d offset total remaining none_left = record {
      at_least = omega arith;
      at_most = omega arith;
      blocks = λ l. refl;
      bytes = λ j k. absurd (omega arith);
      others = λ p k. refl;
      short = λ k. absurd (omega arith);
    }

    stop-Writes :
        (d : Disk) (offset total remaining : ℕ) (e : VfsError)
        → data_block device d inode (offset / block_size) ≡ err e
        → Writes d offset total remaining (d, stop device e total)
    stop-Writes d offset zero remaining e h = λ l. refl
    stop-Writes d offset (suc total) remaining e h =
        rw (lt→ltb 0 (suc total) (omega arith)) (record {
          at_least = omega arith;
          at_most = omega arith;
          blocks = λ l. refl;
          bytes = λ j k. absurd (omega arith);
          others = λ p k. refl;
          short = λ k. (
            e,
            ap (λ x. data_block device d inode (x / block_size))
                  {x = offset + (suc total - suc total)} {y = offset} (omega arith)
                ∙ h,
          );
        })

    -- A round that leaves the disk `d₁`, followed by the rest of the loop.
    module _ (d d₁ : Disk) (offset total count : ℕ)
        (blocks : (l : ℕ) → data_block device d₁ inode l ≡ data_block device d inode l)
        (new : (j : ℕ)
          → j < count
          → file_byte device d₁ inode (offset + j) ≡ or_panic (get_elem? buf (total + j)))
        (old : (p : ℕ)
          → (p < offset) ⊎ (offset + count ≤ p)
          → file_byte device d₁ inode p ≡ file_byte device d inode p) where
      step_bytes :
          (remaining n : ℕ) (d' : Disk)
          → Stored d₁ (offset + count) (total + count) (remaining - count) n d'
          → (j : ℕ) → total + j < n
          → file_byte device d' inode (offset + j) ≡ or_panic (get_elem? buf (total + j))
      step_bytes remaining n d' t j h = elim (dec_lt j count) [
        | yes lt ↦ t.others (offset + j) (inl (omega arith)) ∙ new j lt
        | no ge ↦
            ap (file_byte device d' inode) {x = offset + j} {y = offset + count + (j - count)}
              (omega arith)
            ∙ t.bytes (j - count) (omega arith)
            ∙ ap (λ x. or_panic (get_elem? buf x)) {x = total + count + (j - count)} {y = total + j}
                (omega arith)
      ]

      pub Writes-step :
          (remaining : ℕ) (res : Disk × Result VfsError ℕ)
          → count ≤ remaining
          → Writes d₁ (offset + count) (total + count) (remaining - count) res
          → Writes d offset total remaining res
      Writes-step remaining (d', ok n) le t = record {
        at_least = omega (arith, t.at_least);
        at_most = omega (arith, t.at_most);
        blocks = λ l. t.blocks l ∙ blocks l;
        bytes = step_bytes remaining n d' t;
        others = λ p out. others p out;
        short = λ h.
            let (e, p) = t.short (omega arith) in
            (
              e,
              ap (λ x. data_block device d inode (x / block_size)) {x = offset + (n - total)}
                    {y = offset + count + (n - (total + count))} (omega (arith, t.at_least))
                  ∙ sym (blocks _)
                  ∙ p,
            );
      }
        where
          others :
              (p : ℕ)
              → (p < offset) ⊎ (offset + (n - total) ≤ p)
              → file_byte device d' inode p ≡ file_byte device d inode p
          others p (inl lo) = t.others p (inl (omega arith)) ∙ old p (inl lo)
          others p (inr hi) =
              t.others p (inr (omega (arith, t.at_least))) ∙ old p (inr (omega (arith, t.at_least)))
      Writes-step remaining (d', err e) le t = λ l. t l ∙ blocks l
      Writes-step remaining (d', panic) le t = t

    loaded_length :
        (rel : IsReliable device) (d : Disk) (s count : ℕ) (sector_buf loaded : List ℕ)
        → length sector_buf ≡ sector_size
        → load_sector device d s count sector_buf ≡ ok loaded
        → length loaded ≡ sector_size
    unfolding load_sector
    loaded_length rel d s count sector_buf loaded full h =
        elim (Bool-cases (count == sector_size)) [
          | inl whole ↦ ground arith
          | inr part ↦ rel.read_length s d (ground arith)
        ]

    loaded_old :
        (d : Disk) (s count : ℕ) (sector_buf loaded : List ℕ)
        → load_sector device d s count sector_buf ≡ ok loaded
        → count < sector_size
        → read_sector s d ≡ ok loaded
    unfolding load_sector
    loaded_old d s count sector_buf loaded h lt = ground arith

    load_sector-ne-panic :
        (rel : IsReliable device) (d : Disk) (s count : ℕ) (sector_buf : List ℕ)
        → load_sector device d s count sector_buf ≢ panic
    unfolding load_sector
    load_sector-ne-panic rel d s count sector_buf = ground (arith, rel.read_returns s d)

    -- The outcome of a round whose sector write is `res`.
    module _ (rel : IsReliable device) (v : IsInode inode) where
      write_loop-Writes :
          (d : Disk) (fuel offset total remaining : ℕ) (mapped : Option (ℕ × ℕ))
          (sector_buf : List ℕ)
          → IsUnshared device d inode
          → IsMapped device d inode mapped
          → length sector_buf ≡ sector_size
          → remaining ≤ fuel
          → total + remaining ≤ length buf
          → Writes d offset total remaining
              (write_loop device inode buf fuel offset total remaining mapped sector_buf d)
      unfolding write_loop
      write_loop-Writes d fuel offset total zero mapped sector_buf u m full f fits =
          nothing-Writes d offset total 0 refl
      write_loop-Writes d zero offset total (suc r) mapped sector_buf u m full f fits =
          absurd (omega arith)
      write_loop-Writes d (suc fuel) offset total (suc r) mapped sector_buf u m full f fits =
          let same = map_block-data_block device d inode (offset / block_size) mapped m in
          let room = sector_size - offset % block_size % sector_size in
          let count = min room (suc r) in
          elim (Result-cases (data_block device d inode (offset / block_size))) [
            | inr (inr p) ↦
                absurd (data_block-ne-panic device d inode (offset / block_size) rel v p)
            | inr (inl (e, p)) ↦ rw (same ∙ p, write_loop) (stop-Writes d offset total (suc r) e p)
            | inl (block, p) ↦
                let s = sector_of device block offset in
                elim (Result-cases (load_sector device d s count sector_buf)) [
                  | inr (inr q) ↦ absurd (load_sector-ne-panic rel d s count sector_buf q)
                  | inr (inl (e, q)) ↦ rw (same ∙ p, q, write_loop) (λ l. refl)
                  | inl (loaded, q) ↦
                      let whole = loaded_length rel d s count sector_buf loaded full q in
                      let before = loaded_old d s count sector_buf loaded q in
                      let h : offset % block_size % sector_size + count ≤ sector_size =
                        omega arith in
                      let k : total + count ≤ length buf = omega arith in
                      let bytes =
                        merged device rel d inode u offset total count block buf loaded p whole
                          before h k in
                      let stay =
                        blocks_stay device rel d inode u offset total count block buf loaded p whole
                          before h k in
                      elim (Result-cases (write_sector s bytes d).1) [
                        | inr (inr w) ↦ absurd (rel.write_returns s bytes d w)
                        | inr (inl (e, w)) ↦ rw (same ∙ p, q, w, write_loop) stay
                        | inl (tt, w) ↦
                            rw (same ∙ p, q, w, write_loop)
                              (Writes-step d (write_sector s bytes d).0 offset total count stay
                                (bytes_new device rel d inode u offset total count block buf loaded
                                  p whole before h k w)
                                (bytes_old device rel d inode u offset total count block buf loaded
                                  p whole before h k w)
                                (suc r) _ (omega arith)
                                (write_loop-Writes (write_sector s bytes d).0 fuel (offset + count)
                                  (total + count) (suc r - count)
                                  (some (offset / block_size, block)) bytes
                                  (IsUnshared-stays device rel d inode u offset total count block
                                    buf loaded p whole before h k)
                                  (stay (offset / block_size) ∙ p)
                                  (merged-length device rel d inode u offset total count block buf
                                    loaded p whole before h k)
                                  (omega arith) (omega arith)))
                      ]
                ]
          ]

      -- `write` of a regular file with 12 direct blocks, none of which serves twice or as the pointer
      -- block, to a reliable device, on every outcome.
      -- In a write that succeeds with `n`, the file's bytes from `offset` on are the first `n` bytes of
      -- the buffer and every other byte of the file is as before; `n` is `buf.len()` or what is left of
      -- the file, whichever is less, unless the next byte lies in a block that the inode does not give.
      -- No write moves a block of the file or panics.
      pub write-Writes :
          (d : Disk) (offset : ℕ)
          → IsUnshared device d inode
          → is_directory inode.ty ≡ false
          → Writes d offset 0
              (min (length buf) (inode.metadata.sz - offset))
              (write device inode offset buf d)
      unfolding write
      write-Writes d offset u regular =
          let remaining = min (length buf) (inode.metadata.sz - offset) in
          elim (Bool-cases (leb inode.metadata.sz offset || length buf == 0)) [
            | inl empty ↦ rw (regular, empty) (nothing-Writes d offset 0 remaining (ground arith))
            | inr some_left ↦
                rw (regular, some_left)
                  (write_loop-Writes d remaining offset 0 remaining none (replicate sector_size 0) u
                    tt refl (omega arith) (omega arith))
          ]
