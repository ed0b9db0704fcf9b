-- ===== src/Exec.antt =====
-- kernel/src/exec/elf.rs: the loader of executables. The headers are parsed by the crate `elf`, which
-- is a parameter.
pub mod ReadExact
pub mod Headers
pub mod Load
mod Tests
use efiks_os.Prelude.{
  ℕ, zero, suc, ◌+◌, ◌-◌, ◌≤◌, ◌<◌, ◌≡◌, List, [], ◌∷◌, ◌++◌, length, take, drop, splice, slice,
  Option, none, some, Result, ok, err, panic, ◌>>=◌, leb, if◌then◌else◌,
}
use efiks_os.Vfs.Device.{VfsError, fs}
use efiks_os.Vfs.File.{VNode, File, file_read, seek, start}

module _ (vnode : VNode) where
  -- What a round of the loop makes of a read; `call` goes on.
  abbrev pub after_read :
      (call : File vnode → (done rest : List ℕ) → File vnode × Result VfsError (List ℕ))
      → (done : List ℕ) → File vnode × Result VfsError ℕ × List ℕ
      → File vnode × Result VfsError (List ℕ)
  after_read call done (f, err e, rest) = (f, err e)
  after_read call done (f, panic, rest) = (f, panic)
  after_read call done (f, ok zero, rest) = (f, err fs)
  after_read call done (f, ok (suc n), rest) =
      call f (done ++ take (suc n) rest) (drop (suc n) rest)

  -- The loop of `read_exact_at`: `done` is the part of the buffer that is read, `rest` the part to
  -- come. Every round reads at least a byte, so that as much fuel as bytes is enough.
  unfoldable pub read_loop :
      (fuel : ℕ) → File vnode → (done rest : List ℕ) → File vnode × Result VfsError (List ℕ)
  read_loop fuel f done [] = (f, ok done)
  read_loop zero f done (b ∷ rest) = (f, panic)
  read_loop (suc fuel) f done (b ∷ rest) =
      after_read (read_loop fuel) done (file_read vnode f (b ∷ rest))

  unfoldable pub sought :
      List ℕ → File vnode × Result VfsError (Unit {0}) → File vnode × Result VfsError (List ℕ)
  unfolding read_loop
  sought buf (f, ok _) = read_loop (length buf) f [] buf
  sought buf (f, err e) = (f, err e)
  sought buf (f, panic) = (f, panic)

  -- With the bytes that fill the buffer.
  unfoldable pub read_exact_at :
      File vnode → (offset : ℕ) → List ℕ → File vnode × Result VfsError (List ℕ)
  unfolding sought
  read_exact_at f offset buf = sought buf (seek vnode f (start offset))
