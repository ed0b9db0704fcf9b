-- ===== src/Syscall/Laws.antt =====
-- `sys_read` on every branch, and what the conversions of the arguments refuse.
use efiks_os.Prelude.{
  ℕ, zero, suc, ◌+◌, ◌-◌, ◌^◌, ◌<◌, ◌≤◌, ◌≡◌, refl, ◌⊎◌, inl, inr, false, List, length, replicate,
  get_or, Option, none, some, Result, ok, err, panic, leb, arith,
}
use efiks_os.Mm.Error.{Error, not_found, errno_of}
use efiks_os.Vfs.Device.{VfsError}
use efiks_os.Syscall.{FileOps}
use efiks_os.Syscall.Files.{Caller, vfs_error}
use efiks_os.Syscall.Dispatch.{
  TrapFrame, TaskOps, dispatch_syscall, do_dispatch_syscall, do_exit, do_wait, with_arg, returns,
}

lt→leb : (a b : ℕ) → b < a → leb a b ≡ false
lt→leb a b h = ground arith

module _ (ops : FileOps) where
  -- A read fills no more than the buffer, which keeps its length.
  abbrev pub ReadsWithin : Type 0
  ReadsWithin =
      (file : FileOps.Handle ops) (buf : List ℕ) (world : FileOps.World ops)
      → let (w, r, buf') = FileOps.read ops file buf world in
        (length buf' ≡ length buf) × ((n : ℕ) → r ≡ ok n → n ≤ length buf)

  -- The outcome of reading `count` bytes to `addr`, from what the file gave.
  abbrev pub Delivers :
      Caller ops
      → (addr count : ℕ) → FileOps.World ops × Result VfsError ℕ × List ℕ
      → Caller ops × Result Error ℕ
      → Type 0
  Delivers c addr count (w, ok n, buf) (c', r) =
      (n ≤ count)
      × (Caller.table c' ≡ Caller.table c)
      × (Caller.world c' ≡ w)
      × (((2 ^ 64 < addr + n) × (r ≡ panic))
          ⊎ ((addr + n ≤ 2 ^ 64)
              × (r ≡ ok n)
              × ((i : ℕ) → i < n → Caller.memory c' (addr + i) ≡ get_or buf i 0)
              × ((at : ℕ)
                  → (at < addr) ⊎ (addr + n ≤ at)
                  → Caller.memory c' at ≡ Caller.memory c at)))
  Delivers c addr count (w, err e, buf) (c', r) =
      (r ≡ err (vfs_error e))
      × (Caller.table c' ≡ Caller.table c)
      × (Caller.world c' ≡ w)
      × (Caller.memory c' ≡ Caller.memory c)
  Delivers c addr count (w, panic, buf) (c', r) = r ≡ panic

  -- All branches of a read: of no bytes, without an open file, and of an open file.
  abbrev pub Reads :
      Caller ops
      → (fd addr count : ℕ) → Option (FileOps.Handle ops)
      → Caller ops × Result Error ℕ
      → Type 0
  Reads c fd addr zero file result = result ≡ (c, ok 0)
  Reads c fd addr (suc count) none result = result ≡ (c, err not_found)
  Reads c fd addr (suc count) (some file) result =
      Delivers c addr (suc count) (FileOps.read ops file (replicate (suc count) 0) (Caller.world c))
        result

  -- A negative exit code, and a negative process number to wait for, are refused as invalid arguments,
  -- the caller and the world are left as they are: the task does not exit, and does not wait.
  pub dispatch_syscall-refuses_negative :
      (tasks : TaskOps ops) (c : Caller ops) (tf : TrapFrame)
      → (tf.a7 ≡ 93) ⊎ (tf.a7 ≡ 260)
      → 2 ^ 63 ≤ tf.a0
      → dispatch_syscall ops tasks c tf ≡ (c, returns (2 ^ 64 - 22))
  unfolding dispatch_syscall do_dispatch_syscall do_exit do_wait with_arg errno_of
  dispatch_syscall-refuses_negative tasks c tf (inl exit) negative =
      rw (exit, lt→leb tf.a0 127 (omega arith)) refl
  dispatch_syscall-refuses_negative tasks c tf (inr wait) negative =
      rw (wait, lt→leb tf.a0 9223372036854775807 (omega arith)) refl
