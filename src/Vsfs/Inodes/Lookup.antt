-- ===== src/Vsfs/Inodes/Lookup.antt =====
-- The cache of inodes.

use efiks_os.Prelude.{
  ℕ, ◌≡◌, refl, sym, ◌∙◌, ap, ◌∷◌, none, some, Result, ok, err, panic, ◌==◌, if◌then◌else◌, arith,
  Bool-cases, Option-cases, Result-cases, inl, inr, ◌⊎◌, ==-refl, ==→≡,
}
use efiks_os.Vfs.Device.{BlockDevice, VfsError}
use efiks_os.Vsfs.Layout.{InodeInner}
use efiks_os.Vsfs.Inodes.{
  Cache, cached, Vsfs, read_inode_from_block, insert_if_vacant, read_inode_during,
}

module _ (device : BlockDevice) where
  -- The state after a look at the inode `inum`, against the one before and what other threads do.
  abbrev pub Loads : (Cache → Cache) → ℕ → Vsfs device → Vsfs device × Result VfsError ℕ → Type 0
  Loads during inum s (s', ok n) =
      (n ≡ inum)
      × ((inode : InodeInner) × (cached inum s'.inode_cache ≡ some inode)
          × (((cached inum s.inode_cache ≡ some inode) × (s'.inode_cache ≡ s.inode_cache))
              ⊎ ((cached inum s.inode_cache ≡ none)
                  × ((cached inum (during s.inode_cache) ≡ some inode)
                      ⊎ (read_inode_from_block device s.superblock.inode_table_start inum s.disk
                          ≡ ok inode))
                  × ((j : ℕ) (old : InodeInner)
                      → cached j (during s.inode_cache) ≡ some old
                      → cached j s'.inode_cache ≡ some old))))
  Loads during inum s (s', err e) =
      (cached inum s.inode_cache ≡ none)
      × (read_inode_from_block device s.superblock.inode_table_start inum s.disk ≡ err e)
      × (s'.inode_cache ≡ during s.inode_cache)
  Loads during inum s (s', panic) =
      read_inode_from_block device s.superblock.inode_table_start inum s.disk ≡ panic

  cached-first :
      (n : ℕ) (inode : InodeInner) (cache : Cache) (j : ℕ)
      → cached j ((n, inode) ∷ cache) ≡ (if n == j then some inode else cached j cache)
  unfolding cached
  cached-first n inode cache j = refl

  insert-vacant :
      (inum : ℕ) (inode : InodeInner) (cache : Cache)
      → cached inum cache ≡ none
      → insert_if_vacant device inum inode cache ≡ (inum, inode) ∷ cache
  unfolding insert_if_vacant
  insert-vacant inum inode cache e = rw (e, insert_if_vacant) refl

  insert-occupied :
      (inum : ℕ) (inode there : InodeInner) (cache : Cache)
      → cached inum cache ≡ some there
      → insert_if_vacant device inum inode cache ≡ cache
  unfolding insert_if_vacant
  insert-occupied inum inode there cache e = rw (e, insert_if_vacant) refl

  insert_if_vacant-keeps :
      (inum : ℕ) (inode : InodeInner) (cache : Cache) (j : ℕ) (old : InodeInner)
      → cached j cache ≡ some old
      → cached j (insert_if_vacant device inum inode cache) ≡ some old
  insert_if_vacant-keeps inum inode cache j old h = elim (Option-cases (cached inum cache)) [
    | inr (there, e) ↦ ap (cached j) (insert-occupied inum inode there cache e) ∙ h
    | inl e ↦ elim (Bool-cases (inum == j)) [
      | inl same ↦ absurd (grind (arith, sym e ∙ ap (λ i. cached i cache) (==→≡ inum j same) ∙ h))
      | inr apart ↦
          ap (cached j) (insert-vacant inum inode cache e)
          ∙ cached-first inum inode cache j
          ∙ rw apart h
    ]
  ]

  miss-Loads :
      (during : Cache → Cache) (inum : ℕ) (s : Vsfs device) (inode : InodeInner)
      → cached inum s.inode_cache ≡ none
      → read_inode_from_block device s.superblock.inode_table_start inum s.disk ≡ ok inode
      → Loads during inum s (
        record s { inode_cache = insert_if_vacant device inum inode (during s.inode_cache) },
        ok inum,
      )
  miss-Loads during inum s inode missed loaded =
      let cache = during s.inode_cache in
      let keeps = insert_if_vacant-keeps inum inode cache in
      elim (Option-cases (cached inum cache)) [
        | inl vacant ↦
            let now : cached inum (insert_if_vacant device inum inode cache) ≡ some inode =
              ap (cached inum) (insert-vacant inum inode cache vacant)
              ∙ cached-first inum inode cache inum
              ∙ rw (==-refl inum) refl in
            (refl, (inode, now, inr (missed, inr loaded, keeps)))
        | inr (there, e) ↦ (refl, (there, keeps inum there e, inr (missed, inl e, keeps)))
      ]

  -- For any inode number and whatever other threads do to the cache while the disk is read: a look that
  -- succeeds leaves the number in the cache, with the inode that was there before, or that another
  -- thread put there meanwhile, or that the disk holds; no entry that another thread made is replaced.
  -- A look fails only where the number was not in the cache and by the failure of the disk.
  pub read_inode_during-Loads :
      (during : Cache → Cache) (inum : ℕ) (s : Vsfs device)
      → Loads during inum s (read_inode_during device during inum s)
  unfolding read_inode_during
  read_inode_during-Loads during inum s = elim (Option-cases (cached inum s.inode_cache)) [
    | inr (there, e) ↦ rw (e, read_inode_during) (refl, (there, e, inl (e, refl)))
    | inl missed ↦
        elim (Result-cases
          (read_inode_from_block device s.superblock.inode_table_start inum s.disk)) [
            | inr (inr p) ↦ rw (missed, p, read_inode_during) p
            | inr (inl (e, p)) ↦ rw (missed, p, read_inode_during) (missed, p, refl)
            | inl (inode, p) ↦
                rw (missed, p, read_inode_during) (miss-Loads during inum s inode missed p)
          ]
  ]
