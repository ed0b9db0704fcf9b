-- ===== src/Vsfs/Inodes/Scan.antt =====
-- The scan of a directory, against the bytes of its entries.
use mathlib.Core.Bool.{false≢true}
use efiks_os.Prelude.{
  ℕ, zero, suc, ◌+◌, ◌*◌, ◌/◌, ◌%◌, ◌≤◌, ◌<◌, ◌≡◌, ◌≢◌, refl, sym, ◌∙◌, ap, subst, true, false,
  List, [], ◌∷◌, take, drop, slice, get_or, Result, ok, err, panic, ◌>>=◌, ◌>>◌, guard, leb, leb→le,
  leb→lt, arith, Bool-cases, Result-cases, inl, inr, ◌⊎◌,
}
use efiks_os.Vfs.Device.{BlockDevice, VfsError, fs, not_found}
use efiks_os.Vsfs.Layout.{InodeInner, DirEnt, read32, decode_dirent}
use efiks_os.Vsfs.Blocks.{data_block}
use efiks_os.Vsfs.Inodes.{read_dirent, names, scan, same_bytes}

same_bytes→≡ : (xs ys : List ℕ) → same_bytes xs ys ≡ true → xs ≡ ys
same_bytes→≡ [] [] h = refl
same_bytes→≡ [] (y ∷ ys) h = cc
same_bytes→≡ (x ∷ xs) [] h = cc
same_bytes→≡ (x ∷ xs) (y ∷ ys) h = ground (arith, same_bytes→≡ xs ys)

same_bytes_refl : (xs : List ℕ) → same_bytes xs xs ≡ true
same_bytes_refl [] = refl
same_bytes_refl (x ∷ xs) = ground (arith, same_bytes_refl xs)

same_bytes→≢ : (xs ys : List ℕ) → same_bytes xs ys ≡ false → xs ≢ ys
same_bytes→≢ xs ys h e = false≢true (sym h ∙ ap (same_bytes xs) (sym e) ∙ same_bytes_refl xs)

module _ (device : BlockDevice) where
  open device use {Disk, read_sector}

  module _ (d : Disk) (inode : InodeInner) (path : List ℕ) where
    -- The `count` entries from `i` on can be read and have other names, by the code's own test.
    abbrev MissesBy : (i count : ℕ) → Type 0
    MissesBy i count =
        (j : ℕ)
        → j < count
        → (dirent : DirEnt) × (read_dirent device d inode (i + j) ≡ ok dirent)
          × (names device dirent path ≡ false)

    abbrev ScansBy : (i count : ℕ) → Result VfsError ℕ → Type 0
    ScansBy i count (ok inum) =
        (k : ℕ) × (k < count)
        × MissesBy i k
        × ((dirent : DirEnt) × (read_dirent device d inode (i + k) ≡ ok dirent)
            × (names device dirent path ≡ true)
            × (dirent.inum ≡ inum))
    ScansBy i count (err e) =
        ((e ≡ not_found) × MissesBy i count)
        ⊎ ((k : ℕ) × (k < count) × MissesBy i k × (read_dirent device d inode (i + k) ≡ err e))
    ScansBy i count panic =
        (k : ℕ) × (k < count) × MissesBy i k × (read_dirent device d inode (i + k) ≡ panic)

    module _ (i : ℕ) (dirent : DirEnt) (here : read_dirent device d inode i ≡ ok dirent)
        (other : names device dirent path ≡ false) where
      MissesBy-more : (count : ℕ) → MissesBy (suc i) count → MissesBy i (suc count)
      MissesBy-more count rest zero h =
          (dirent, ap (read_dirent device d inode) {x = i + 0} {y = i} (omega arith) ∙ here, other)
      MissesBy-more count rest (suc j) h =
          let (found, at, differs) = rest j (omega arith) in
          (
            found,
            ap (read_dirent device d inode) {x = i + suc j} {y = suc i + j} (omega arith) ∙ at,
            differs,
          )

      moved :
          (k : ℕ) → read_dirent device d inode (i + suc k) ≡ read_dirent device d inode (suc i + k)
      moved k = ap (read_dirent device d inode) {x = i + suc k} {y = suc i + k} (omega arith)

      ScansBy-more :
          (count : ℕ) (result : Result VfsError ℕ)
          → ScansBy (suc i) count result
          → ScansBy i (suc count) result
      ScansBy-more count (ok inum) (k, lt, misses, (found, at, is, same)) =
          (suc k, omega arith, MissesBy-more k misses, (found, moved k ∙ at, is, same))
      ScansBy-more count (err e) (inl (nothing, misses)) = inl (nothing, MissesBy-more count misses)
      ScansBy-more count (err e) (inr (k, lt, misses, at)) =
          inr (suc k, omega arith, MissesBy-more k misses, moved k ∙ at)
      ScansBy-more count panic (k, lt, misses, at) =
          (suc k, omega arith, MissesBy-more k misses, moved k ∙ at)

    at_once : (i : ℕ) → read_dirent device d inode (i + 0) ≡ read_dirent device d inode i
    at_once i = ap (read_dirent device d inode) {x = i + 0} {y = i} (omega arith)

    scan-ScansBy : (i count : ℕ) → ScansBy i count (scan device d inode path i count)
    unfolding scan
    scan-ScansBy i zero = inl (refl, λ j h. absurd (omega arith))
    scan-ScansBy i (suc count) = elim (Result-cases (read_dirent device d inode i)) [
      | inr (inr p) ↦ rw (p, scan) (0, omega arith, (λ j h. absurd (omega arith)), at_once i ∙ p)
      | inr (inl (e, p)) ↦
          rw (p, scan) (inr (0, omega arith, (λ j h. absurd (omega arith)), at_once i ∙ p))
      | inl (dirent, p) ↦ elim (Bool-cases (names device dirent path)) [
        | inl is ↦
            rw (p, is, scan)
              (0, omega arith, (λ j h. absurd (omega arith)), (dirent, at_once i ∙ p, is, refl))
        | inr differs ↦
            rw (p, differs, scan)
              (ScansBy-more i dirent p differs count (scan device d inode path (suc i) count)
                (scan-ScansBy (suc i) count))
      ]
    ]

    -- The entry `i` of a directory: 32 bytes, 16 of them to a sector and 8 sectors to a block.
    abbrev pub entry_bytes : ℕ → Result VfsError (List ℕ)
    entry_bytes i = data_block device d inode (i / 128) >>= λ block.
        read_sector (block * 8 + i % 128 / 16) d >>= λ buf. ok (drop (i % 16 * 32) buf)

    -- The bytes hold an entry with this name and this number of an inode: the number in four bytes, the
    -- length of the name in one, and the name.
    abbrev pub HasName : List ℕ → Type 0
    HasName bytes = (get_or bytes 4 0 ≤ 27) × (take (get_or bytes 4 0) (slice bytes 5 27) ≡ path)

    abbrev pub HasOther : List ℕ → Type 0
    HasOther bytes = (get_or bytes 4 0 ≤ 27) × (take (get_or bytes 4 0) (slice bytes 5 27) ≢ path)

    -- The `count` entries from `i` on can be read and have other names.
    abbrev pub Misses : (i count : ℕ) → Type 0
    Misses i count =
        (j : ℕ) → j < count → (bytes : List ℕ) × (entry_bytes (i + j) ≡ ok bytes) × HasOther bytes

    -- The entry cannot be read, or its name is too long.
    abbrev pub Fails : ℕ → VfsError → Type 0
    Fails i e =
        (entry_bytes i ≡ err e)
        ⊎ ((e ≡ fs) × ((bytes : List ℕ) × (entry_bytes i ≡ ok bytes) × (27 < get_or bytes 4 0)))

    abbrev pub Scans : (i count : ℕ) → Result VfsError ℕ → Type 0
    Scans i count (ok inum) =
        (k : ℕ) × (k < count)
        × Misses i k
        × ((bytes : List ℕ) × (entry_bytes (i + k) ≡ ok bytes)
            × HasName bytes
            × (read32 bytes 0 ≡ inum))
    Scans i count (err e) =
        ((e ≡ not_found) × Misses i count) ⊎ ((k : ℕ) × (k < count) × Misses i k × Fails (i + k) e)
    Scans i count panic = (k : ℕ) × (k < count) × Misses i k × (entry_bytes (i + k) ≡ panic)

    -- What `read_dirent` makes of the bytes of the entry.
    abbrev checked : List ℕ → Result VfsError DirEnt
    checked bytes = guard (leb (get_or bytes 4 0) 27) fs >> ok (decode_dirent bytes)

    read_dirent-entry_bytes :
        (i : ℕ) → read_dirent device d inode i ≡ (entry_bytes i >>= λ bytes. checked bytes)
    unfolding read_dirent decode_dirent
    read_dirent-entry_bytes i =
        let block : i * 32 / 4096 ≡ i / 128 = omega arith in
        let sector : i * 32 % 4096 / 512 ≡ i % 128 / 16 = omega arith in
        let at : i * 32 % 4096 % 512 ≡ i % 16 * 32 = omega arith in
        rw (block, sector, at)
          (elim (Result-cases (data_block device d inode (i / 128))) [
            | inr (inr p) ↦ rw p refl
            | inr (inl (e, p)) ↦ rw p refl
            | inl (b, p) ↦ elim (Result-cases (read_sector (b * 8 + i % 128 / 16) d)) [
              | inr (inr q) ↦ rw (p, q) refl
              | inr (inl (e, q)) ↦ rw (p, q) refl
              | inl (buf, q) ↦ rw (p, q) refl
            ]
          ])

    abbrev Reads : (i : ℕ) → Result VfsError DirEnt → Type 0
    Reads i (ok dirent) =
        (bytes : List ℕ) × (entry_bytes i ≡ ok bytes)
        × (get_or bytes 4 0 ≤ 27)
        × (decode_dirent bytes ≡ dirent)
    Reads i (err e) = Fails i e
    Reads i panic = entry_bytes i ≡ panic

    read_dirent-Reads : (i : ℕ) → Reads i (read_dirent device d inode i)
    read_dirent-Reads i = elim (Result-cases (entry_bytes i)) [
      | inr (inr p) ↦ rw (read_dirent-entry_bytes i, p) p
      | inr (inl (e, p)) ↦ rw (read_dirent-entry_bytes i, p) (inl p)
      | inl (bytes, p) ↦ elim (Bool-cases (leb (get_or bytes 4 0) 27)) [
        | inl fits ↦
            rw (read_dirent-entry_bytes i, p, fits)
              (bytes, p, leb→le (get_or bytes 4 0) 27 fits, refl)
        | inr long ↦
            rw (read_dirent-entry_bytes i, p, long)
              (inr (refl, (bytes, p, leb→lt (get_or bytes 4 0) 27 long)))
      ]
    ]

    Reads-at : (i : ℕ) (r : Result VfsError DirEnt) → read_dirent device d inode i ≡ r → Reads i r
    Reads-at i r e = subst (Reads i) e (read_dirent-Reads i)

    named :
        (bytes : List ℕ) (dirent : DirEnt)
        → get_or bytes 4 0 ≤ 27
        → decode_dirent bytes ≡ dirent
        → names device dirent path ≡ true
        → HasName bytes
    unfolding decode_dirent
    named bytes dirent fits e is =
        let there : names device (decode_dirent bytes) path ≡ true =
          ap (λ x. names device x path) e ∙ is in
        (fits, same_bytes→≡ (take (get_or bytes 4 0) (slice bytes 5 27)) path there)

    unnamed :
        (bytes : List ℕ) (dirent : DirEnt)
        → get_or bytes 4 0 ≤ 27
        → decode_dirent bytes ≡ dirent
        → names device dirent path ≡ false
        → HasOther bytes
    unfolding decode_dirent
    unnamed bytes dirent fits e other =
        let there : names device (decode_dirent bytes) path ≡ false =
          ap (λ x. names device x path) e ∙ other in
        (fits, same_bytes→≢ (take (get_or bytes 4 0) (slice bytes 5 27)) path there)

    MissesBy-Misses : (i count : ℕ) → MissesBy i count → Misses i count
    MissesBy-Misses i count misses j lt =
        let (dirent, at, other) = misses j lt in
        let (bytes, there, fits, e) = Reads-at (i + j) (ok dirent) at in
        (bytes, there, unnamed bytes dirent fits e other)

    ScansBy-Scans : (i count : ℕ) (r : Result VfsError ℕ) → ScansBy i count r → Scans i count r
    unfolding decode_dirent
    ScansBy-Scans i count (ok inum) (k, lt, misses, (dirent, at, is, same)) =
        let (bytes, there, fits, e) = Reads-at (i + k) (ok dirent) at in
        (
          k,
          lt,
          MissesBy-Misses i k misses,
          (bytes, there, named bytes dirent fits e is, ap (λ (x : DirEnt). x.inum) e ∙ same),
        )
    ScansBy-Scans i count (err e) (inl (nothing, misses)) =
        inl (nothing, MissesBy-Misses i count misses)
    ScansBy-Scans i count (err e) (inr (k, lt, misses, at)) =
        inr (k, lt, MissesBy-Misses i k misses, Reads-at (i + k) (err e) at)
    ScansBy-Scans i count panic (k, lt, misses, at) =
        (k, lt, MissesBy-Misses i k misses, Reads-at (i + k) panic at)

    -- For any directory, name and range of entries of 32 bytes: the scan gives the number in the first
    -- entry whose name is exactly the one that is looked for, and `NotFound` where every entry can be
    -- read and has another name; any other failure is that of the first entry that cannot be read or
    -- whose name is longer than 27 bytes, with no entry of that name before it.
    pub scan-Scans : (i count : ℕ) → Scans i count (scan device d inode path i count)
    scan-Scans i count =
        ScansBy-Scans i count (scan device d inode path i count) (scan-ScansBy i count)
