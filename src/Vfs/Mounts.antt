-- ===== src/Vfs/Mounts.antt =====
-- kernel/src/vfs/mod.rs: the mount table and the resolution of absolute paths. A filesystem is a
-- value of the parameter `Fs`; the table is the ordered map of the source, as a list of its entries.
pub mod Laws
use efiks_os.Prelude.{
  ℕ, ◌+◌, Bool, true, false, ◌&&◌, ◌||◌, List, [], ◌∷◌, length, drop, get_elem?, Option, none, some,
  Result, ok, err, panic, ◌>>=◌, ok_or, ltb, ◌==◌, if◌then◌else◌,
}
use efiks_os.Vfs.Device.{VfsError, fs, already_mounted}

abbrev pub bytes_eq : List ℕ → List ℕ → Bool
bytes_eq [] [] = true
bytes_eq [] (y ∷ ys) = false
bytes_eq (x ∷ xs) [] = false
bytes_eq (x ∷ xs) (y ∷ ys) = x == y && bytes_eq xs ys

-- `path.starts_with(prefix)`
abbrev pub starts_with : List ℕ → List ℕ → Bool
starts_with path [] = true
starts_with [] (y ∷ ys) = false
starts_with (x ∷ xs) (y ∷ ys) = x == y && starts_with xs ys

-- `path.strip_prefix(prefix)`
abbrev pub strip_prefix : List ℕ → List ℕ → Option (List ℕ)
strip_prefix path prefix =
    if starts_with path prefix then some (drop (length prefix) path) else none

abbrev pub unwrap_or {ℓ} : {A : Type ℓ} → Option A → A → A
unwrap_or none d = d
unwrap_or (some a) d = a

abbrev pub is_slash : Option ℕ → Bool
is_slash none = false
is_slash (some c) = c == b'/'

abbrev pub root_path : List ℕ
root_path = b'/' ∷ []

unfoldable pub is_mount_prefix : List ℕ → List ℕ → Bool
is_mount_prefix mount path =
    if bytes_eq mount root_path
    then starts_with path root_path
    else (bytes_eq path mount || starts_with path mount && is_slash (get_elem? path (length mount)))

abbrev pub relative_path : List ℕ → List ℕ → List ℕ
relative_path mount path =
    if bytes_eq mount root_path
    then unwrap_or (strip_prefix path root_path) path
    else unwrap_or (strip_prefix (unwrap_or (strip_prefix path mount) path) root_path) []

-- The ordered map, as its entries from the last key on; no two have the same path.
abbrev pub Mounts : Type 0 → Type 0
Mounts Fs = List (List ℕ × Fs)

module _ {Fs : Type 0} where
  -- `max_by_key` keeps the later of two equal keys.
  later_longest : List ℕ × Fs → Option (List ℕ × Fs) → Option (List ℕ × Fs)
  later_longest m none = some m
  later_longest m (some best) = if ltb (length best.0) (length m.0) then some m else some best

  unfoldable pub find_mount : Mounts Fs → List ℕ → Option (List ℕ × Fs)
  unfolding is_mount_prefix later_longest
  find_mount [] path = none
  find_mount (m ∷ mounts) path =
      let best = find_mount mounts path in
      if is_mount_prefix m.0 path then later_longest m best else best

  unfoldable pub resolve_path : Mounts Fs → List ℕ → Result VfsError (Fs × List ℕ)
  unfolding find_mount
  resolve_path mounts path =
      ok_or (find_mount mounts path) fs >>= λ m. ok (m.1, relative_path m.0 path)

  has_mount : Mounts Fs → List ℕ → Bool
  has_mount [] path = false
  has_mount ((m, _) ∷ mounts) path = bytes_eq m path || has_mount mounts path

  -- `initialized` is the outcome of the filesystem's own initialisation, which comes first.
  unfoldable pub mount :
      Result VfsError Fs → List ℕ → Mounts Fs → Mounts Fs × Result VfsError (Unit {0})
  unfolding has_mount
  mount (ok f) path mounts =
      if has_mount mounts path then (mounts, err already_mounted) else ((path, f) ∷ mounts, ok tt)
  mount (err e) path mounts = (mounts, err e)
  mount panic path mounts = (mounts, panic)
