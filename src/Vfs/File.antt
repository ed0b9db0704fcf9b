-- ===== src/Vfs/File.antt =====
-- vfs/src/lib.rs: `VNode`, `File` and `SeekFrom`; `VfsError::to_errno` with the numbers of
-- types/src/lib.rs.
pub mod Seek
use efiks_os.Prelude.{
  ℕ, suc, ◌+◌, ◌-◌, ◌^◌, List, Option, none, some, Result, ok, err, panic, ltb, if◌then◌else◌,
}
use efiks_os.Vfs.Device.{
  VfsError, device_io, fs, already_mounted, out_of_bounds, not_found, unknown,
}

-- The trait, over the hidden state of an implementation.
pub record VNode : Type 1 where
  pub State : Type 0
  pub read : State → ℕ → List ℕ → Result VfsError ℕ × List ℕ
  pub write : ℕ → List ℕ → State → State × Result VfsError ℕ
  pub sz : State → ℕ

-- `isize`: `negsuc n` is -(n + 1).
pub data Isize : Type 0 where
  pos : ℕ → Isize
  negsuc : ℕ → Isize

pub data SeekFrom : Type 0 where
  start : ℕ → SeekFrom
  current : Isize → SeekFrom
  end : Isize → SeekFrom

abbrev pub checked_add : ℕ → ℕ → Option ℕ
checked_add a b = if ltb (a + b) (2 ^ 64) then some (a + b) else none

abbrev pub checked_sub : ℕ → ℕ → Option ℕ
checked_sub a b = if ltb a b then none else some (a - b)

pub checked_offset : ℕ → Isize → Option ℕ
checked_offset from (pos n) = checked_add from n
checked_offset from (negsuc n) = checked_sub from (suc n)

module _ (vnode : VNode) where
  open vnode use {State, read, write, sz}

  pub record File : Type 0 where
    pub inode : State
    pub offset : ℕ

  unfoldable pub advance : File → Result VfsError ℕ → File
  advance f (ok n) = record f { offset = f.offset + n }
  advance f (err e) = f
  advance f panic = f

  unfoldable pub file_read : File → List ℕ → File × Result VfsError ℕ × List ℕ
  unfolding advance
  file_read f buf = let (n, buf') = read f.inode f.offset buf in (advance f n, n, buf')

  unfoldable pub file_write : File → List ℕ → File × Result VfsError ℕ
  unfolding advance
  file_write f buf =
      let (inode, n) = write f.offset buf f.inode in (advance (record f { inode = inode }) n, n)

  new_offset : File → SeekFrom → Option ℕ
  unfolding checked_offset
  new_offset f (start n) = some n
  new_offset f (current n) = checked_offset f.offset n
  new_offset f (end n) = checked_offset (sz f.inode) n

  seek_to : File → Option ℕ → File × Result VfsError (Unit {0})
  seek_to f none = (f, err out_of_bounds)
  seek_to f (some n) =
      if ltb (sz f.inode) n then (f, err out_of_bounds) else (record f { offset = n }, ok tt)

  unfoldable pub seek : File → SeekFrom → File × Result VfsError (Unit {0})
  unfolding new_offset seek_to
  seek f target = seek_to f (new_offset f target)

-- `Errno` of types/src/lib.rs.
pub data Errno : Type 0 where
  enoent eio enoexec ebadf echild enomem efault ebusy eexist einval espipe enotty enosys eoverflow :
      Errno

-- The discriminants.
abbrev pub errno_number : Errno → ℕ
errno_number enoent = 2
errno_number eio = 5
errno_number enoexec = 8
errno_number ebadf = 9
errno_number echild = 10
errno_number enomem = 12
errno_number efault = 14
errno_number ebusy = 16
errno_number eexist = 17
errno_number einval = 22
errno_number espipe = 29
errno_number enotty = 25
errno_number enosys = 38
errno_number eoverflow = 75

unfoldable pub to_errno : VfsError → Errno
to_errno device_io = eio
to_errno fs = eio
to_errno unknown = eio
to_errno out_of_bounds = eoverflow
to_errno not_found = enoent
to_errno already_mounted = ebusy
