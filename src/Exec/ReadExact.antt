-- ===== src/Exec/ReadExact.antt =====
-- `read_exact_at` against the contents of the file.
use native.Mathlib.Decide.{ℕ_discrete}
use efiks_os.Prelude.{
  ◌≢◌, ℕ, zero, suc, ◌+◌, ◌-◌, ◌≤◌, ◌<◌, ◌^◌, ◌≡◌, refl, sym, ap, ◌∙◌, List, [], ◌∷◌, ◌++◌, length,
  append-nil, append_assoc, take-append, drop-append, slice-slice, length-drop, take, drop, splice,
  slice, min, Result, ok, err, panic, arith, inl, inr, length-slice,
}
use efiks_os.Vfs.Device.{VfsError, fs, out_of_bounds}
use efiks_os.Vfs.File.{VNode, File, advance, file_read, seek, start}
use efiks_os.Vfs.File.Seek.{Seeks, seek-Seeks}
use efiks_os.Exec.{sought, after_read, read_loop, read_exact_at}

module _ (vnode : VNode) (contents : VNode.State vnode → List ℕ) where
  -- A read gives bytes of the contents, as many as it likes up to the end and at least one before it.
  abbrev pub ReadsContents : Type 0
  ReadsContents =
      (st : VNode.State vnode) (off : ℕ) (buf : List ℕ)
      → off ≤ length (contents st)
      → (n : ℕ) × (n ≤ length buf)
        × (off + n ≤ length (contents st))
        × (1 ≤ min (length buf) (length (contents st) - off) → 1 ≤ n)
        × (VNode.read vnode st off buf ≡ (ok n, splice buf 0 (slice (contents st) off n)))

  abbrev pub HasSize : Type 0
  HasSize = (st : VNode.State vnode) → VNode.sz vnode st ≡ length (contents st)

  module _ (reads : ReadsContents) where
    positive : (n : ℕ) → n ≢ 0 → 1 ≤ n
    positive zero ne = absurd (ne refl)
    positive (suc n) ne = omega arith

    file_read-read :
        (f : File vnode) (buf : List ℕ) (n : ℕ) (buf' : List ℕ)
        → VNode.read vnode (File.inode f) (File.offset f) buf ≡ (ok n, buf')
        → file_read vnode f buf ≡ (record f { offset = File.offset f + n }, ok n, buf')
    unfolding file_read advance
    file_read-read f buf n buf' e =
        ap (λ (r : Result VfsError ℕ × List ℕ). (advance vnode f (r.0), r.0, r.1)) e

    ended :
        (fuel : ℕ) (f : File vnode) (done buf : List ℕ) (n : ℕ) (buf' : List ℕ)
        → VNode.read vnode (File.inode f) (File.offset f) buf ≡ (ok n, buf')
        → n ≡ 0
        → (after_read vnode (read_loop vnode fuel) done (file_read vnode f buf)).1 ≡ err fs
    ended fuel f done buf n buf' e none_left =
        ap
          (λ (r : File vnode × Result VfsError ℕ × List ℕ).
            (after_read vnode (read_loop vnode fuel) done r).1)
          (file_read-read f buf n buf' e)
        ∙ ap
            (λ k.
              (after_read vnode (read_loop vnode fuel) done
                (record f { offset = File.offset f + n }, ok k, buf')).1)
            none_left

    -- One round that gives `n` bytes.
    read_loop-round :
        (fuel : ℕ) (f : File vnode) (done : List ℕ) (b : ℕ) (rest : List ℕ) (n : ℕ)
        → 1 ≤ n
        → File.offset f + n ≤ length (contents (File.inode f))
        → VNode.read vnode (File.inode f) (File.offset f) (b ∷ rest)
          ≡ (ok n, splice (b ∷ rest) 0 (slice (contents (File.inode f)) (File.offset f) n))
        → read_loop vnode (suc fuel) f done (b ∷ rest)
          ≡ read_loop vnode fuel
              (record f { offset = File.offset f + n })
              (done ++ slice (contents (File.inode f)) (File.offset f) n)
              (drop n (b ∷ rest))
    unfolding read_loop
    read_loop-round fuel f done b rest zero some_bytes inside e = absurd (omega arith)
    read_loop-round fuel f done b rest (suc m) some_bytes inside e =
        let part = slice (contents (File.inode f)) (File.offset f) (suc m) in
        let size : length part ≡ suc m =
          length-slice (contents (File.inode f)) (File.offset f) (suc m) inside in
        let buf = part ++ drop (length part) (b ∷ rest) in
        let e' =
          e
          ∙ ap (λ k. (ok (suc m), part ++ drop k (b ∷ rest))) {x = 0 + length part}
              {y = length part} (omega arith) in
        let first : take (suc m) buf ≡ part =
          ap (λ k. take k buf) (sym size) ∙ take-append part (drop (length part) (b ∷ rest)) in
        let left : drop (suc m) buf ≡ drop (suc m) (b ∷ rest) =
          ap (λ k. drop k buf) (sym size)
          ∙ drop-append part (drop (length part) (b ∷ rest))
          ∙ ap (λ k. drop k (b ∷ rest)) size in
        ap (after_read vnode (read_loop vnode fuel) done)
          (file_read-read f (b ∷ rest) (suc m) buf e')
        ∙ (λ i.
            read_loop vnode fuel (record f { offset = File.offset f + suc m }) (done ++ first i)
              (left i))

    -- With enough in the file, the rest of the buffer is filled.
    read_loop-fills :
        (fuel : ℕ) (f : File vnode) (done rest : List ℕ)
        → length rest ≤ fuel
        → File.offset f + length rest ≤ length (contents (File.inode f))
        → (read_loop vnode fuel f done rest).1
          ≡ ok (done ++ slice (contents (File.inode f)) (File.offset f) (length rest))
    unfolding read_loop
    read_loop-fills fuel f done [] h fits = ap ok (sym (append-nil done))
    read_loop-fills zero f done (b ∷ rest) h fits = absurd (omega arith)
    read_loop-fills (suc fuel) f done (b ∷ rest) h fits =
        let content = contents (File.inode f) in
        let off = File.offset f in
        let (n, le, inside, some_bytes, e) = reads (File.inode f) off (b ∷ rest) (omega arith) in
        let left = length-drop n (b ∷ rest) in
        let one : 1 ≤ n = some_bytes (omega arith) in
        ap (λ (r : File vnode × Result VfsError (List ℕ)). r.1)
          (read_loop-round fuel f done b rest n one inside e)
        ∙ read_loop-fills fuel (record f { offset = off + n }) (done ++ slice content off n)
            (drop n (b ∷ rest)) (omega arith) (omega arith)
        ∙ ap ok (
            append_assoc done (slice content off n) _
            ∙ ap (λ ys. done ++ ys)
                (slice-slice content off n (length (drop n (b ∷ rest)))
                  ∙ ap (slice content off) {x = n + length (drop n (b ∷ rest))}
                      {y = length (b ∷ rest)} (omega arith)))

    -- With too little, the end of the file is an error.
    read_loop-ends :
        (fuel : ℕ) (f : File vnode) (done rest : List ℕ)
        → length rest ≤ fuel
        → File.offset f ≤ length (contents (File.inode f))
        → length (contents (File.inode f)) < File.offset f + length rest
        → (read_loop vnode fuel f done rest).1 ≡ err fs
    unfolding read_loop
    read_loop-ends fuel f done [] h le short = absurd (omega arith)
    read_loop-ends zero f done (b ∷ rest) h le short = absurd (omega arith)
    read_loop-ends (suc fuel) f done (b ∷ rest) h le short =
        let off = File.offset f in
        let (n, small, inside, some_bytes, e) = reads (File.inode f) off (b ∷ rest) le in
        let left = length-drop n (b ∷ rest) in
        elim (ℕ_discrete n 0) [
          | yes none_left ↦ ended fuel f done (b ∷ rest) n _ e none_left
          | no more ↦
              ap (λ (r : File vnode × Result VfsError (List ℕ)). r.1)
                (read_loop-round fuel f done b rest n (positive n more) inside e)
              ∙ read_loop-ends fuel (record f { offset = off + n }) _ (drop n (b ∷ rest))
                  (let one = positive n more in omega arith) inside (omega arith)
        ]

    -- The outcome for a buffer of `len` bytes at an offset of the contents.
    abbrev pub ReadsExactly : List ℕ → (offset len : ℕ) → Result VfsError (List ℕ) → Type 0
    ReadsExactly content offset len r =
        (offset + len ≤ length content → r ≡ ok (slice content offset len))
        × (offset ≤ length content → length content < offset + len → r ≡ err fs)
        × (length content < offset → r ≡ err out_of_bounds)

    sought-ReadsExactly :
        (sizes : HasSize) (f : File vnode) (offset : ℕ) (buf : List ℕ)
        (r : File vnode × Result VfsError (Unit {0}))
        → Seeks vnode f (start offset) r
        → ReadsExactly (contents (File.inode f)) offset (length buf) ((sought vnode buf r).1)
    unfolding sought
    sought-ReadsExactly sizes f offset buf (f', ok _) (at, inside, same) =
        let size = sizes (File.inode f) in
        let content : contents (File.inode f') ≡ contents (File.inode f) = ap contents same in
        let long = ap length content in
        let here : File.offset f' ≡ offset = omega (arith, at) in
        (
          (λ fits.
              read_loop-fills (length buf) f' [] buf (omega arith) (omega arith)
              ∙ (λ i. ok (slice (content i) (here i) (length buf)))),
          (λ le short.
              read_loop-ends (length buf) f' [] buf (omega arith) (omega arith) (omega arith)),
          (λ past. absurd (omega arith)),
        )
    sought-ReadsExactly sizes f offset buf (f', err e) (is, same, inl before) = absurd (omega arith)
    sought-ReadsExactly sizes f offset buf (f', err e) (is, same, inr past) =
        let size = sizes (File.inode f) in
        ((λ fits. absurd (omega arith)), (λ le short. absurd (omega arith)), (λ far. ap err is))
    sought-ReadsExactly sizes f offset buf (f', panic) h = absurd h

    -- `read_exact_at` on a file that reads its contents, however little at a time: it fills the buffer
    -- with the bytes at the offset exactly when the file has them all; a file that ends before is
    -- reported as an error of the file system, an offset past the end as out of bounds. There is no
    -- other outcome: the loop ends.
    pub read_exact_at-ReadsExactly :
        (sizes : HasSize) (f : File vnode) (offset : ℕ) (buf : List ℕ)
        → length (contents (File.inode f)) < 2 ^ 64
        → ReadsExactly
            (contents (File.inode f))
            offset
            (length buf)
            ((read_exact_at vnode f offset buf).1)
    unfolding read_exact_at
    read_exact_at-ReadsExactly sizes f offset buf small =
        sought-ReadsExactly sizes f offset buf (seek vnode f (start offset))
          (seek-Seeks vnode f (start offset) (let size = sizes (File.inode f) in omega arith))
