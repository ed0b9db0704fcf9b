-- ===== src/Vfs/File/Seek.antt =====
-- `File::seek` against the position that its argument names.
use efiks_os.Prelude.{ℕ, suc, ◌+◌, ◌^◌, ◌<◌, ◌≤◌, ◌≡◌, ◌⊎◌, Result, ok, err, panic, arith}
use efiks_os.Vfs.Device.{VfsError, out_of_bounds}
use efiks_os.Vfs.File.{VNode, File, SeekFrom, start, current, end, Isize, pos, negsuc, seek}

-- How far forward or back an offset goes.
abbrev forward : Isize → ℕ
forward (pos n) = n
forward (negsuc n) = 0

abbrev back : Isize → ℕ
back (pos n) = 0
back (negsuc n) = suc n

module _ (vnode : VNode) (f : File vnode) where
  abbrev size : ℕ
  size = vnode.sz f.inode

  -- The position named is `ahead - behind`.
  abbrev pub ahead : SeekFrom → ℕ
  ahead (start n) = n
  ahead (current n) = f.offset + forward n
  ahead (end n) = size + forward n

  abbrev pub behind : SeekFrom → ℕ
  behind (start n) = 0
  behind (current n) = back n
  behind (end n) = back n

  abbrev pub Seeks : SeekFrom → File vnode × Result VfsError (Unit {0}) → Type 0
  Seeks to (f', ok _) =
      (f'.offset + behind to ≡ ahead to) × (f'.offset ≤ size) × (f'.inode ≡ f.inode)
  Seeks to (f', err e) =
      (e ≡ out_of_bounds) × (f' ≡ f) × ((ahead to < behind to) ⊎ (size + behind to < ahead to))
  Seeks to (f', panic) = ⊥

  -- `seek` moves to the position that its argument names, exactly where that lies between the start
  -- of the file and its size, the size itself included; anywhere else it reports `OutOfBounds` and
  -- leaves the file as it was. Sums past `usize` are among the latter, since the size fits `usize`.
  pub seek-Seeks : (to : SeekFrom) → size < 2 ^ 64 → Seeks to (seek vnode f to)
  unfolding seek
  seek-Seeks (start n) h = ground arith
  seek-Seeks (current (pos n)) h = ground arith
  seek-Seeks (current (negsuc n)) h = ground arith
  seek-Seeks (end (pos n)) h = ground arith
  seek-Seeks (end (negsuc n)) h = ground arith
