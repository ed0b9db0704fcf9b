-- ===== src/Vfs/Mounts/Laws.antt =====
-- The routing of kernel/src/vfs/mod.rs: the longest mount, and the path below it.

use mathlib.Core.Bool.{false≢true}
use efiks_os.Prelude.{
  ℕ, suc, zero, ◌≤◌, ◌≡◌, ◌≢◌, refl, sym, ap, ◌∙◌, Bool, true, false, ◌||◌, List, [], ◌∷◌, ◌++◌,
  length, drop, get_elem?, Option, none, some, ◌⊎◌, inl, inr, Result, ok, err, panic, arith, ltb,
  Bool-cases, tests, ok_or, ◌>>=◌,
}
use efiks_os.Vfs.Device.{VfsError, fs}
use efiks_os.Vfs.Mounts.{
  bytes_eq, starts_with, is_slash, root_path, is_mount_prefix, Mounts, later_longest, find_mount,
  relative_path, resolve_path,
}

bytes_eq→≡ : (xs ys : List ℕ) → bytes_eq xs ys ≡ true → xs ≡ ys
bytes_eq→≡ [] [] h = refl
bytes_eq→≡ [] (y ∷ ys) h = cc
bytes_eq→≡ (x ∷ xs) [] h = cc
bytes_eq→≡ (x ∷ xs) (y ∷ ys) h = ground (arith, bytes_eq→≡ xs ys)

bytes_eq_refl : (xs : List ℕ) → bytes_eq xs xs ≡ true
bytes_eq_refl [] = refl
bytes_eq_refl (x ∷ xs) = ground (arith, bytes_eq_refl xs)

bytes_eq→≢ : (xs ys : List ℕ) → bytes_eq xs ys ≡ false → xs ≢ ys
bytes_eq→≢ xs ys h e = false≢true (sym h ∙ ap (bytes_eq xs) (sym e) ∙ bytes_eq_refl xs)

≢→bytes_eq : (xs ys : List ℕ) → xs ≢ ys → bytes_eq xs ys ≡ false
≢→bytes_eq xs ys ne = elim (Bool-cases (bytes_eq xs ys)) [
  | inl same ↦ absurd (ne (bytes_eq→≡ xs ys same))
  | inr other ↦ other
]

or_true : (b : Bool) → (b || true) ≡ true
or_true true = refl
or_true false = refl

-- A path that starts with a prefix is the prefix followed by what is stripped.
starts_with-append :
    (path prefix : List ℕ)
    → starts_with path prefix ≡ true
    → path ≡ prefix ++ drop (length prefix) path
starts_with-append path [] h = refl
starts_with-append [] (y ∷ ys) h = cc
starts_with-append (x ∷ xs) (y ∷ ys) h = ground (arith, starts_with-append xs ys)

-- A slash behind the prefix heads what is stripped.
slash_heads :
    (path : List ℕ) (n : ℕ)
    → is_slash (get_elem? path n) ≡ true
    → drop n path ≡ b'/' ∷ drop (suc n) path
slash_heads [] n h = cc
slash_heads (x ∷ xs) zero h = ground arith
slash_heads (x ∷ xs) (suc n) h = slash_heads xs n h

-- The path is `rel` below the mount point: behind the root's slash, nothing at the mount point itself,
-- or behind a slash that follows the mount point.
abbrev pub Below : List ℕ → List ℕ → List ℕ → Type 0
Below mount path rel =
    ((mount ≡ root_path) × (path ≡ b'/' ∷ rel))
    ⊎ ((mount ≢ root_path) × (((path ≡ mount) × (rel ≡ [])) ⊎ (path ≡ mount ++ (b'/' ∷ rel))))

-- The path lies at or below the mount point.
abbrev pub Contains : List ℕ → List ℕ → Type 0
Contains mount path = (rel : List ℕ) × Below mount path rel

starts_with_refl : (xs : List ℕ) → starts_with xs xs ≡ true
starts_with_refl [] = refl
starts_with_refl (x ∷ xs) = ground (arith, starts_with_refl xs)

drop-length : (xs : List ℕ) → drop (length xs) xs ≡ []
drop-length [] = refl
drop-length (x ∷ xs) = drop-length xs

root-Below :
    (path : List ℕ) → starts_with path root_path ≡ true → path ≡ b'/' ∷ relative_path root_path path
root-Below [] h = cc
root-Below (c ∷ cs) h = ground arith

same-Below : (path : List ℕ) → bytes_eq path root_path ≡ false → relative_path path path ≡ []
same-Below path inner = rw (inner, starts_with_refl path, drop-length path) refl

longer-Below :
    (mount path : List ℕ)
    → bytes_eq mount root_path ≡ false
    → starts_with path mount ≡ true
    → is_slash (get_elem? path (length mount)) ≡ true
    → path ≡ mount ++ (b'/' ∷ relative_path mount path)
longer-Below mount path inner starts slash =
    let heads = slash_heads path (length mount) slash in
    let rel : relative_path mount path ≡ drop (suc (length mount)) path =
      rw (inner, starts, heads) refl in
    starts_with-append path mount starts
    ∙ ap (λ rest. mount ++ rest) (heads ∙ ap (λ rest. b'/' ∷ rest) (sym rel))

relative_path-Below :
    (mount path : List ℕ)
    → is_mount_prefix mount path ≡ true
    → Below mount path (relative_path mount path)
unfolding is_mount_prefix
relative_path-Below mount path h = elim (Bool-cases (bytes_eq mount root_path)) [
  | inl root ↦
      let e = bytes_eq→≡ mount root_path root in inl (e, rw e (root-Below path (ground arith)))
  | inr inner ↦ inr (
    bytes_eq→≢ mount root_path inner,
    elim (Bool-cases (bytes_eq path mount)) [
      | inl same ↦ let e = bytes_eq→≡ path mount same in inl (e, rw e (same-Below mount inner))
      | inr longer ↦ inr (longer-Below mount path inner (ground arith) (ground arith))
    ],
  )
]

starts_with_prefix : (xs ys : List ℕ) → starts_with (xs ++ ys) xs ≡ true
starts_with_prefix [] ys = refl
starts_with_prefix (x ∷ xs) ys = ground (arith, starts_with_prefix xs ys)

slash_follows : (xs rel : List ℕ) → is_slash (get_elem? (xs ++ (b'/' ∷ rel)) (length xs)) ≡ true
slash_follows [] rel = refl
slash_follows (x ∷ xs) rel = slash_follows xs rel

Contains-is_mount_prefix :
    (mount path : List ℕ) → Contains mount path → is_mount_prefix mount path ≡ true
unfolding is_mount_prefix
Contains-is_mount_prefix mount path (rel, inl (root, e)) = rw (root, e) refl
Contains-is_mount_prefix mount path (rel, inr (inner, inl (e, _))) =
    rw (e, ≢→bytes_eq mount root_path inner, bytes_eq_refl mount) refl
Contains-is_mount_prefix mount path (rel, inr (inner, inr e)) =
    rw
      (
        e,
        ≢→bytes_eq mount root_path inner,
        starts_with_prefix mount (b'/' ∷ rel),
        slash_follows mount rel,
      )
      (or_true (bytes_eq (mount ++ (b'/' ∷ rel)) mount))

-- An entry of the table.
abbrev pub Entry : {Fs : Type 0} → Mounts Fs → List ℕ × Fs → Type 0
Entry [] m = ⊥
Entry (n ∷ mounts) m = (n ≡ m) ⊎ Entry mounts m

module _ {Fs : Type 0} where
  -- The choice of `find_mount`, by its own test.
  abbrev LongestPrefix : Mounts Fs → List ℕ → Option (List ℕ × Fs) → Type 0
  LongestPrefix mounts path none =
      (n : List ℕ × Fs) → Entry mounts n → is_mount_prefix n.0 path ≡ false
  LongestPrefix mounts path (some m) =
      Entry mounts m
      × (is_mount_prefix m.0 path ≡ true)
      × ((n : List ℕ × Fs)
          → Entry mounts n
          → is_mount_prefix n.0 path ≡ true
          → length n.0 ≤ length m.0)

  LongestPrefix-skip :
      (m : List ℕ × Fs) (mounts : Mounts Fs) (path : List ℕ) (best : Option (List ℕ × Fs))
      → is_mount_prefix m.0 path ≡ false
      → LongestPrefix mounts path best
      → LongestPrefix (m ∷ mounts) path best
  LongestPrefix-skip m mounts path none other t =
      λ n. elim [ inl e ↦ rw e at other | inr there ↦ t n there ]
  LongestPrefix-skip m mounts path (some b) other (here, fits, longest) = (
    inr here,
    fits,
    (λ n. elim [
      | inl e ↦ λ h. absurd (false≢true (sym other ∙ ap (λ k. is_mount_prefix k.0 path) e ∙ h))
      | inr there ↦ longest n there
    ]),
  )

  LongestPrefix-take :
      (m : List ℕ × Fs) (mounts : Mounts Fs) (path : List ℕ) (best : Option (List ℕ × Fs))
      → is_mount_prefix m.0 path ≡ true
      → LongestPrefix mounts path best
      → LongestPrefix (m ∷ mounts) path (later_longest m best)
  unfolding later_longest
  LongestPrefix-take m mounts path none matches t = (
    inl refl,
    matches,
    (λ n. elim [
      | inl e ↦ λ h. omega (arith, ap (λ k. length k.0) e)
      | inr there ↦ λ h. absurd (false≢true (sym (t n there) ∙ h))
    ]),
  )
  LongestPrefix-take m mounts path (some b) matches (here, fits, longest) =
      elim (Bool-cases (ltb (length b.0) (length m.0))) [
        | inl longer ↦ rw longer (
          inl refl,
          matches,
          (λ n. elim [
            | inl e ↦ λ h. omega (arith, ap (λ k. length k.0) e)
            | inr there ↦ λ h. omega (tests, longest n there h)
          ]),
        )
        | inr shorter ↦ rw shorter (
          inr here,
          fits,
          (λ n. elim [
            | inl e ↦ λ h. omega (tests, ap (λ k. length k.0) e)
            | inr there ↦ longest n there
          ]),
        )
      ]

  find_mount-LongestPrefix :
      (mounts : Mounts Fs) (path : List ℕ) → LongestPrefix mounts path (find_mount mounts path)
  unfolding find_mount
  find_mount-LongestPrefix [] path = λ n h. absurd h
  find_mount-LongestPrefix (m ∷ mounts) path = elim (Bool-cases (is_mount_prefix m.0 path)) [
    | inl matches ↦
        rw matches
          (LongestPrefix-take m mounts path _ matches (find_mount-LongestPrefix mounts path))
    | inr other ↦
        rw other (LongestPrefix-skip m mounts path _ other (find_mount-LongestPrefix mounts path))
  ]

  -- The entry whose mount point is longest among those that contain the path, or no such entry.
  abbrev pub Longest : Mounts Fs → List ℕ → Option (List ℕ × Fs) → Type 0
  Longest mounts path none = (n : List ℕ × Fs) → Entry mounts n → ¬ Contains n.0 path
  Longest mounts path (some m) =
      Entry mounts m
      × Contains m.0 path
      × ((n : List ℕ × Fs) → Entry mounts n → Contains n.0 path → length n.0 ≤ length m.0)

  LongestPrefix-Longest :
      (mounts : Mounts Fs) (path : List ℕ) (found : Option (List ℕ × Fs))
      → LongestPrefix mounts path found
      → Longest mounts path found
  LongestPrefix-Longest mounts path none t =
      λ n there c. false≢true (sym (t n there) ∙ Contains-is_mount_prefix n.0 path c)
  LongestPrefix-Longest mounts path (some m) (here, fits, longest) = (
    here,
    (relative_path m.0 path, relative_path-Below m.0 path fits),
    (λ n there c. longest n there (Contains-is_mount_prefix n.0 path c)),
  )

  abbrev pub Resolves : Mounts Fs → List ℕ → Result VfsError (Fs × List ℕ) → Type 0
  Resolves mounts path (ok (f, rel)) =
      (mount : List ℕ) × Longest mounts path (some (mount, f)) × Below mount path rel
  Resolves mounts path (err e) = (e ≡ fs) × Longest mounts path none
  Resolves mounts path panic = ⊥

  -- For any mounts and any path, `resolve_path` hands the path to the longest mount at or below which
  -- it lies, with the rest of the path below that mount; it fails with `Fs` exactly without such a mount.
  pub resolve_path-Resolves :
      (mounts : Mounts Fs) (path : List ℕ) → Resolves mounts path (resolve_path mounts path)
  unfolding resolve_path
  resolve_path-Resolves mounts path =
      from (find_mount mounts path) (find_mount-LongestPrefix mounts path)
    where
      from :
          (found : Option (List ℕ × Fs))
          → LongestPrefix mounts path found
          → Resolves mounts path (ok_or found fs >>= λ m. ok (m.1, relative_path m.0 path))
      from none t = (refl, LongestPrefix-Longest mounts path none t)
      from (some m) t =
          (m.0, LongestPrefix-Longest mounts path (some m) t, relative_path-Below m.0 path t.1)
