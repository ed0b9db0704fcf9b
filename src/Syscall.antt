-- ===== src/Syscall.antt =====
-- kernel/src/syscall.rs and kernel/src/mm/addr: the memory of the caller, what the system calls share,
-- and the interface of the files and the tasks that they use.
pub mod Files
pub mod Vectors
pub mod Dispatch
pub mod Laws
mod Tests
use efiks_os.Prelude.{
  ℕ, zero, suc, ◌+◌, ◌-◌, ◌*◌, ◌^◌, Bool, true, false, ◌&&◌, List, [], ◌∷◌, length, get_or, Option,
  none, some, Result, ok, err, panic, ◌>>=◌, ltb, leb, ◌==◌, if◌then◌else◌,
}
use efiks_os.Mm.Error.{Error, invalid_args}
use efiks_os.Vfs.Device.{VfsError}

abbrev pub Memory : Type 0
Memory = ℕ → ℕ

-- The files of the kernel, by handles. `read` also gives the buffer after it.
pub record FileOps : Type 1 where
  pub World : Type 0
  pub Handle : Type 0
  pub read : Handle → List ℕ → World → World × Result VfsError ℕ × List ℕ
  pub write : Handle → List ℕ → World → World × Result VfsError ℕ
  pub open_path : List ℕ → World → World × Result VfsError Handle
  pub create_path : List ℕ → World → World × Result VfsError Handle

-- The bytes from an address on; the last address is below 2^64, or the addition overflows.
abbrev pub bytes_at : Memory → (addr count : ℕ) → List ℕ
bytes_at memory addr zero = []
bytes_at memory addr (suc count) = memory addr ∷ bytes_at memory (suc addr) count

unfoldable pub copy_from_user : Memory → (addr count : ℕ) → Result Error (List ℕ)
copy_from_user memory addr count =
    if leb (addr + count) (2 ^ 64) then ok (bytes_at memory addr count) else panic

abbrev pub store_bytes : Memory → (addr : ℕ) → List ℕ → Memory
store_bytes memory addr bytes at =
    if leb addr at && ltb at (addr + length bytes) then get_or bytes (at - addr) 0 else memory at

unfoldable pub copy_into_user : Memory → (addr : ℕ) → List ℕ → Result Error Memory
copy_into_user memory addr bytes =
    if leb (addr + length bytes) (2 ^ 64) then ok (store_bytes memory addr bytes) else panic

-- `copy_from_user_until(dest, |b| b == 0)`, and `ok_or(Error::InvalidArgs)`: the bytes before a zero
-- among the first `max`.
unfoldable pub string_at : Memory → (addr max : ℕ) → Result Error (List ℕ)
string_at memory addr zero = err invalid_args
string_at memory addr (suc max) =
    let rest = string_at memory (suc addr) max in
    if leb (2 ^ 64) addr
    then panic
    else (if memory addr == 0 then ok [] else (rest >>= λ bytes. ok (memory addr ∷ bytes)))

-- A little-endian `usize`.
abbrev pub from_le : List ℕ → ℕ
from_le [] = 0
from_le (b ∷ bytes) = b + 256 * from_le bytes

unfoldable pub usize_at : Memory → (addr : ℕ) → Result Error ℕ
unfolding copy_from_user
usize_at memory addr = copy_from_user memory addr 8 >>= λ bytes. ok (from_le bytes)

-- `UserBuf::new` and `UserBufMut::new`
abbrev pub user_buf : ℕ → Option ℕ
user_buf addr = if addr == 0 then none else some addr
