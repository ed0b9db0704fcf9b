-- ===== src/Syscall/Files.antt =====
-- `sys_open`, `sys_close`, `sys_read` and `sys_write`.
use efiks_os.Prelude.{
  ℕ, bit_and, bit_or, Bool, true, false, ◌&&◌, List, [], ◌∷◌, length, take, replicate, Option, none,
  some, Result, ok, err, panic, ◌>>=◌, ltb, ◌==◌, if◌then◌else◌,
}
use efiks_os.Mm.Error.{Error, invalid_args, not_found, errno}
use efiks_os.Vfs.Device.{VfsError, device_io, fs, unknown, out_of_bounds, already_mounted}
use efiks_os.Vfs.Device
use efiks_os.Vfs.File.{to_errno, eexist, ebadf}
use efiks_os.Task.FileTable.{add_file, get_file, close_file}
use efiks_os.Syscall.{FileOps, Memory, copy_from_user, copy_into_user, string_at}

-- `Flags`
abbrev pub flag_creat : ℕ
flag_creat = 64

abbrev pub flag_excl : ℕ
flag_excl = 128

-- All named bits: `from_bits` refuses any other.
abbrev pub known_flags : ℕ
known_flags = 8388547

abbrev pub max_file_path_length : ℕ
max_file_path_length = 255

-- `err == vfs::VfsError::NotFound`
abbrev is_not_found : VfsError → Bool
is_not_found Device.not_found = true
is_not_found _ = false

abbrev pub contains : (flags mask : ℕ) → Bool
contains flags mask = bit_and flags mask == mask

-- `From<T> for Error`
abbrev pub vfs_error : VfsError → Error
vfs_error e = errno (to_errno e)

module _ (ops : FileOps) where
  open ops use {World, Handle, read, write, open_path, create_path}

  -- What the system calls of one task read and change.
  pub record Caller : Type 0 where
    pub memory : Memory
    pub table : List (Option Handle)
    pub world : World

  -- Adding an opened file to the table.
  install : Caller → World × Result VfsError Handle → Caller × Result Error ℕ
  install c (world, ok file) =
      let (table, fd) = add_file c.table file in (record c { table = table; world = world }, ok fd)
  install c (world, err e) = (record c { world = world }, err (vfs_error e))
  install c (world, panic) = (record c { world = world }, panic)

  -- What `sys_open` does with the outcome of opening the path.
  unfoldable pub opened :
      (flags : ℕ) → Caller → List ℕ → World × Result VfsError Handle → Caller × Result Error ℕ
  unfolding install
  opened flags c path (world, ok file) =
      if contains flags (bit_or flag_creat flag_excl)
      then (record c { world = world }, err (errno eexist))
      else install c (world, ok file)
  opened flags c path (world, err e) =
      if is_not_found e && contains flags flag_creat
      then install (record c { world = world }) (create_path path world)
      else (record c { world = world }, err (vfs_error e))
  opened flags c path (world, panic) = (record c { world = world }, panic)

  open_string : (flags : ℕ) → Caller → Result Error (List ℕ) → Caller × Result Error ℕ
  unfolding opened
  open_string flags c (ok []) = (c, err invalid_args)
  open_string flags c (ok (b ∷ path)) = opened flags c (b ∷ path) (open_path (b ∷ path) c.world)
  open_string flags c (err e) = (c, err e)
  open_string flags c panic = (c, panic)

  unfoldable pub sys_open : Caller → (path flags : ℕ) → Caller × Result Error ℕ
  unfolding open_string
  sys_open c path flags =
      if bit_and flags known_flags == flags
      then open_string flags c (string_at c.memory path max_file_path_length)
      else (c, err invalid_args)

  closed : Caller → List (Option Handle) × Option Handle → Caller × Result Error ℕ
  closed c (table, some file) = (record c { table = table }, ok 0)
  closed c (table, none) = (record c { table = table }, err (errno ebadf))

  unfoldable pub sys_close : Caller → (fd : ℕ) → Caller × Result Error ℕ
  unfolding closed
  sys_close c fd = closed c (close_file c.table fd)

  -- `copy_into_user(&kbuf[0..count])`, which panics past the buffer.
  unfoldable pub deliver :
      Caller → (addr : ℕ) → World × Result VfsError ℕ × List ℕ → Caller × Result Error ℕ
  deliver c addr (world, ok n, buf) =
      elim ((if ltb (length buf) n then panic else ok (take n buf))
        >>= copy_into_user c.memory addr) [
          | ok memory ↦ (record c { memory = memory; world = world }, ok n)
          | err e ↦ (record c { world = world }, err e)
          | panic ↦ (record c { world = world }, panic)
        ]
  deliver c addr (world, err e, buf) = (record c { world = world }, err (vfs_error e))
  deliver c addr (world, panic, buf) = (record c { world = world }, panic)

  unfoldable pub read_from : Caller → (addr count : ℕ) → Option Handle → Caller × Result Error ℕ
  unfolding deliver
  read_from c addr count none = (c, err not_found)
  read_from c addr count (some file) = deliver c addr (read file (replicate count 0) c.world)

  unfoldable pub sys_read : Caller → (fd addr count : ℕ) → Caller × Result Error ℕ
  unfolding read_from
  sys_read c fd addr count =
      if count == 0 then (c, ok 0) else read_from c addr count (get_file c.table fd)

  accept : Caller → World × Result VfsError ℕ → Caller × Result Error ℕ
  accept c (world, ok n) = (record c { world = world }, ok n)
  accept c (world, err e) = (record c { world = world }, err (vfs_error e))
  accept c (world, panic) = (record c { world = world }, panic)

  write_bytes : Caller → Handle → Result Error (List ℕ) → Caller × Result Error ℕ
  unfolding accept
  write_bytes c file (ok bytes) = accept c (write file bytes c.world)
  write_bytes c file (err e) = (c, err e)
  write_bytes c file panic = (c, panic)

  write_to : Caller → (addr count : ℕ) → Option Handle → Caller × Result Error ℕ
  unfolding write_bytes
  write_to c addr count none = (c, err not_found)
  write_to c addr count (some file) = write_bytes c file (copy_from_user c.memory addr count)

  unfoldable pub sys_write : Caller → (fd addr count : ℕ) → Caller × Result Error ℕ
  unfolding write_to
  sys_write c fd addr count =
      if count == 0 then (c, ok 0) else write_to c addr count (get_file c.table fd)
