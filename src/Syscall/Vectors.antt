-- ===== src/Syscall/Vectors.antt =====
-- `sys_readv` and `sys_writev`: the loop over the vector of buffers.
use efiks_os.Prelude.{
  ℕ, zero, suc, ◌+◌, ◌^◌, Option, none, some, Result, ok, err, panic, ◌>>=◌, ltb, leb, ◌==◌,
  if◌then◌else◌,
}
use efiks_os.Mm.Error.{Error, invalid_args, overflow}
use efiks_os.Syscall.{FileOps, usize_at}
use efiks_os.Syscall.Files.{Caller, sys_read, sys_write}

-- An entry of the vector: the base and the length.
unfoldable pub iovec_at : (ℕ → ℕ) → (addr : ℕ) → Result Error (ℕ × ℕ)
iovec_at memory addr =
    usize_at memory addr >>= λ base. usize_at memory (addr + 8) >>= λ len. ok (base, len)

-- `io_vec.offset(1)`
abbrev pub next_iovec : ℕ → Option ℕ
next_iovec addr = if ltb (addr + 16) (2 ^ 64) then some (addr + 16) else none

module _ (ops : FileOps) where
  abbrev pub Transfer : Type 0
  Transfer = Caller ops → (addr count : ℕ) → Caller ops × Result Error ℕ

  -- After an entry of `requested` bytes; `call` goes on with the next entry, `left` are to come.
  unfoldable pub after_transfer :
      (call : Caller ops → (vec total : ℕ) → Caller ops × Result Error ℕ)
      → (left vec total requested : ℕ) → Caller ops × Result Error ℕ
      → Caller ops × Result Error ℕ
  after_transfer call left vec total requested (c, panic) = (c, panic)
  after_transfer call left vec total requested (c, err e) =
      (c, if total == 0 then err e else ok total)
  after_transfer call left vec total requested (c, ok n) =
      let stopped : Caller ops × Result Error ℕ = (c, ok (total + n)) in
      if leb (2 ^ 64) (total + n)
      then (c, err overflow)
      else (if ltb n requested then stopped else elim left [
        | zero ↦ stopped
        | suc _ ↦ elim (next_iovec vec) [
          | none ↦ (c, err invalid_args)
          | some vec' ↦ call c vec' (total + n)
        ]
      ])

  unfoldable pub transfer_vector :
      Transfer → (left : ℕ) → Caller ops → (vec total : ℕ) → Caller ops × Result Error ℕ
  unfolding after_transfer iovec_at
  transfer_vector transfer zero c vec total = (c, ok total)
  transfer_vector transfer (suc left) c vec total = elim (iovec_at (Caller.memory c) vec) [
    | ok (base, requested) ↦
        after_transfer (transfer_vector transfer left) left vec total requested
          (transfer c base requested)
    | err e ↦ (c, err e)
    | panic ↦ (c, panic)
  ]

  unfoldable pub sys_readv : Caller ops → (fd vec len : ℕ) → Caller ops × Result Error ℕ
  unfolding transfer_vector
  sys_readv c fd vec len = transfer_vector (λ c'. sys_read ops c' fd) len c vec 0

  unfoldable pub sys_writev : Caller ops → (fd vec len : ℕ) → Caller ops × Result Error ℕ
  unfolding transfer_vector
  sys_writev c fd vec len = transfer_vector (λ c'. sys_write ops c' fd) len c vec 0
