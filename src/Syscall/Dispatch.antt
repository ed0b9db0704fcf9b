-- ===== src/Syscall/Dispatch.antt =====
-- `dispatch_syscall`: the number and the arguments of the trap frame, and the value that goes back into
-- it. The tasks and the address space are reached through an interface; the trap frame is
-- kernel/src/arch/riscv/trap/trap_frame.rs, the numbers are kernel/src/arch/riscv/syscall.rs.
use efiks_os.Prelude.{
  ℕ, zero, suc, ◌+◌, ◌-◌, ◌*◌, ◌/◌, ◌%◌, ◌^◌, ◌||◌, not, List, [], ◌∷◌, Result, ok, err, panic,
  ◌>>=◌, leb, ◌==◌, if◌then◌else◌, ok_or,
}
use efiks_os.Mm.Error.{Error, invalid_args, errno, errno_of}
use efiks_os.Vfs.File.{errno_number, enotty, espipe}
use efiks_os.Syscall.{FileOps, Memory, copy_into_user, string_at, usize_at, user_buf}
use efiks_os.Syscall.Files.{Caller, sys_open, sys_close, sys_read, sys_write, max_file_path_length}
use efiks_os.Syscall.Vectors.{sys_readv, sys_writev}

pub record TrapFrame : Type 0 where
  pub a0 : ℕ
  pub a1 : ℕ
  pub a2 : ℕ
  pub a7 : ℕ

-- A call that does not return, a call with a value, and a panic.
pub data Outcome : Type 0 where
  returns : ℕ → Outcome
  halts panics : Outcome

-- The tasks and the memory manager: an exit code is its `u8`, the rest are the words of the calls.
pub record TaskOps (ops : FileOps) : Type 0 where
  pub exit : Caller ops → (code : ℕ) → Caller ops
  pub sleep : Caller ops → (ms : ℕ) → Caller ops
  pub current_pid : Caller ops → ℕ
  pub brk : Caller ops → (addr : ℕ) → Caller ops × Result Error ℕ
  pub fork : Caller ops → Caller ops × Result Error ℕ
  pub wait : Caller ops → Caller ops × Result Error (ℕ × ℕ)
  pub spawn : Caller ops → (path : List ℕ) → List (List ℕ) → Caller ops × Result Error ℕ

-- `get_arg_as`, into a type whose largest value is `max`
abbrev pub arg_as : (max word : ℕ) → Result Error ℕ
arg_as max word = if leb word max then ok word else err invalid_args

abbrev pub u32_max : ℕ
u32_max = 4294967295

abbrev pub i8_max : ℕ
i8_max = 127

abbrev pub isize_max : ℕ
isize_max = 9223372036854775807

-- `RawWaitStatus`
unfoldable pub raw_wait_status : ℕ → ℕ
raw_wait_status code = code * 2 ^ 8

-- A little-endian word of 8 bytes.
abbrev pub le_bytes : (count x : ℕ) → List ℕ
le_bytes zero x = []
le_bytes (suc count) x = x % 256 ∷ le_bytes count (x / 256)

-- The loop of `sys_spawn` over the arguments; the iterator ends where the next pointer overflows, which
-- is at `left` pointers.
unfoldable pub argv_from : Memory → (left addr : ℕ) → Result Error (List (List ℕ))
unfolding usize_at string_at
argv_from memory zero addr = ok []
argv_from memory (suc left) addr =
    let rest = argv_from memory left (addr + 8) in
    usize_at memory addr >>= λ pointer.
    if pointer == 0
    then ok []
    else (string_at memory pointer 128 >>= λ arg. rest >>= λ args. ok (arg ∷ args))

abbrev pub argv_fuel : ℕ → ℕ
argv_fuel addr = (2 ^ 64 - 1 - addr) / 8

module _ (ops : FileOps) (tasks : TaskOps ops) where
  -- With an argument that may be refused.
  unfoldable pub with_arg :
      {A : Type 0}
      → Caller ops
      → Result Error A
      → (A → Caller ops × Result Error ℕ)
      → Caller ops × Result Error ℕ
  with_arg c (ok a) f = f a
  with_arg c (err e) f = (c, err e)
  with_arg c panic f = (c, panic)

  stored : Caller ops → ℕ → Result Error Memory → Caller ops × Result Error ℕ
  stored c n (ok memory) = (record c { memory = memory }, ok n)
  stored c n (err e) = (c, err e)
  stored c n panic = (c, panic)

  waited : (out : ℕ) → Caller ops × Result Error (ℕ × ℕ) → Caller ops × Result Error ℕ
  unfolding stored
  waited out (c, ok (pid, code)) =
      stored c pid (copy_into_user (Caller.memory c) out (le_bytes 4 (raw_wait_status code)))
  waited out (c, err e) = (c, err e)
  waited out (c, panic) = (c, panic)

  unfoldable pub sys_wait : Caller ops → (out : ℕ) → Caller ops × Result Error ℕ
  unfolding waited
  sys_wait c out = waited out (TaskOps.wait tasks c)

  spawned : (out_pid : ℕ) → Caller ops × Result Error ℕ → Caller ops × Result Error ℕ
  unfolding stored
  spawned out_pid (c, ok pid) =
      stored c 0 (copy_into_user (Caller.memory c) out_pid (le_bytes 8 pid))
  spawned out_pid (c, err e) = (c, err e)
  spawned out_pid (c, panic) = (c, panic)

  spawn_with :
      Caller ops → (out_pid : ℕ) → (path : List ℕ) → List (List ℕ) → Caller ops × Result Error ℕ
  unfolding spawned
  spawn_with c out_pid path args = spawned out_pid (TaskOps.spawn tasks c path args)

  spawn_path : Caller ops → (argv out_pid : ℕ) → (path : List ℕ) → Caller ops × Result Error ℕ
  unfolding with_arg spawn_with
  spawn_path c argv out_pid [] = (c, err invalid_args)
  spawn_path c argv out_pid (b ∷ path) =
      with_arg c (argv_from (Caller.memory c) (argv_fuel argv) argv)
        (spawn_with c out_pid (b ∷ path))

  unfoldable pub sys_spawn : Caller ops → (path argv out_pid : ℕ) → Caller ops × Result Error ℕ
  unfolding with_arg spawn_path
  sys_spawn c path argv out_pid =
      with_arg c (string_at (Caller.memory c) path max_file_path_length) (spawn_path c argv out_pid)

  with_fd_and_buf :
      Caller ops
      → TrapFrame
      → (Caller ops → (fd addr count : ℕ) → Caller ops × Result Error ℕ)
      → Caller ops × Result Error ℕ
  unfolding with_arg
  with_fd_and_buf c tf call =
      with_arg c (arg_as u32_max tf.a0)
        (λ fd. with_arg c (ok_or (user_buf tf.a1) invalid_args) (λ addr. call c fd addr tf.a2))

  with_fd_and_vector :
      Caller ops
      → TrapFrame
      → (Caller ops → (fd vec len : ℕ) → Caller ops × Result Error ℕ)
      → Caller ops × Result Error ℕ
  unfolding with_arg
  with_fd_and_vector c tf call =
      with_arg c (arg_as u32_max tf.a0)
        (λ fd. with_arg c (arg_as u32_max tf.a2) (λ len. call c fd tf.a1 len))

  -- The calls by their numbers; a number that is none of them panics.
  abbrev pub Call : Type 0
  Call = Caller ops → TrapFrame → Caller ops × Result Error ℕ

  do_open : Call
  unfolding with_arg
  do_open c tf =
      with_arg c (ok_or (user_buf tf.a1) invalid_args)
        (λ path. with_arg c (arg_as u32_max tf.a2) (λ flags. sys_open ops c path flags))

  do_close : Call
  unfolding with_arg
  do_close c tf = with_arg c (arg_as u32_max tf.a0) (λ fd. sys_close ops c fd)

  unfoldable pub do_exit : Call
  unfolding with_arg
  do_exit c tf = with_arg c (arg_as i8_max tf.a0) (λ code. (TaskOps.exit tasks c code, ok 0))

  do_clone : Call
  do_clone c tf =
      if not (tf.a0 == 17) || not (tf.a1 == 0) then (c, err invalid_args) else TaskOps.fork tasks c

  unfoldable pub do_wait : Call
  unfolding with_arg
  do_wait c tf =
      with_arg c (arg_as isize_max tf.a0)
        (λ pid. with_arg c (arg_as u32_max tf.a2) (λ flags. sys_wait c tf.a1))

  do_spawn : Call
  unfolding with_arg
  do_spawn c tf =
      with_arg c (ok_or (user_buf tf.a1) invalid_args) (λ path. sys_spawn c path tf.a2 tf.a0)

  -- The arms of the match on the number; a number that has none panics.
  unfoldable pub do_dispatch_syscall :
      (number : ℕ) → Caller ops → TrapFrame → Caller ops × Result Error ℕ
  unfolding do_open do_close do_exit do_clone do_wait do_spawn with_fd_and_buf with_fd_and_vector
  do_dispatch_syscall n c tf =
      if n == 29
      then (c, err (errno enotty))
      else if n == 56
      then do_open c tf
      else if n == 57
      then do_close c tf
      else if n == 63
      then with_fd_and_buf c tf (sys_read ops)
      else if n == 64
      then with_fd_and_buf c tf (sys_write ops)
      else if n == 65
      then with_fd_and_vector c tf (sys_readv ops)
      else if n == 66
      then with_fd_and_vector c tf (sys_writev ops)
      else if (n == 69 || n == 70)
      then (c, err (errno espipe))
      else if n == 93
      then do_exit c tf
      else if n == 101
      then (TaskOps.sleep tasks c tf.a0, ok 0)
      else if n == 178
      then (c, ok (TaskOps.current_pid tasks c))
      else if n == 214
      then TaskOps.brk tasks c tf.a0
      else if n == 220
      then do_clone c tf
      else if n == 260
      then do_wait c tf
      else if n == 6
      then do_spawn c tf
      else (c, panic)

  -- `tf.set_syscall_return_value`: a negative number is its two's complement.
  abbrev pub outcome : Result Error ℕ → Outcome
  outcome (ok n) = returns n
  outcome (err e) = returns (2 ^ 64 - errno_number (errno_of e))
  outcome panic = panics

  -- `dispatch_syscall`, for the arm `SYS_SHUTDOWN` as well
  unfoldable pub dispatch_syscall : Caller ops → TrapFrame → Caller ops × Outcome
  unfolding do_dispatch_syscall
  dispatch_syscall c tf =
      let (c', result) = do_dispatch_syscall tf.a7 c tf in
      if tf.a7 == 5 then (c, halts) else (c', outcome result)
