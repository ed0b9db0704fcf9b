-- ===== src/Ksync/RwLock.antt =====
-- ksync/src/rw_lock.rs: `RwLock`. A step is one successful atomic access of one thread; a failed
-- exchange changes nothing and is tried again.
use efiks_os.Prelude.{
  ℕ, suc, ◌+◌, ◌-◌, ◌<◌, ◌≡◌, refl, sym, ap, ltb, ◌==◌, if◌then◌else◌, arith, subst, Bool-cases,
  inl, inr, ◌⊎◌,
}

abbrev pub no_lock_held : ℕ
no_lock_held = 0

-- `usize::MAX`
abbrev pub write_lock_held : ℕ
write_lock_held = 18446744073709551615

-- The counter, and the guards that are out: shared ones and exclusive ones.
pub record State : Type 0 where
  pub readers : ℕ
  pub read_guards : ℕ
  pub write_guards : ℕ

abbrev pub unlocked : State
unlocked = record { readers = 0; read_guards = 0; write_guards = 0 }

-- What one turn of the loop of `read_lock` does with the value that it loads.
pub data ReadAttempt : Type 0 where
  spin : ReadAttempt
  assert_fails : ReadAttempt
  exchange : (expected new : ℕ) → ReadAttempt

unfoldable pub read_attempt : ℕ → ReadAttempt
read_attempt readers =
    if readers == write_lock_held
    then spin
    else (if ltb readers (write_lock_held - 1)
        then exchange readers (readers + 1)
        else assert_fails)

-- `fetch_sub(1)` on a 64-bit word.
abbrev pub fetch_sub_one : ℕ → ℕ
fetch_sub_one readers = if readers == 0 then write_lock_held else readers - 1

-- The loaded value may be old when the exchange is tried; the exchange succeeds only where the counter
-- is still that value.
pub data Step (s : State) : State → Type 0 where
  read_lock :
      (loaded new : ℕ)
      → read_attempt loaded ≡ exchange s.readers new
      → Step s
          (record { readers = new; read_guards = suc s.read_guards; write_guards = s.write_guards })
  write_lock :
      s.readers ≡ no_lock_held
      → Step s (record {
        readers = write_lock_held;
        read_guards = s.read_guards;
        write_guards = suc s.write_guards;
      })
  drop_read :
      (guards : ℕ)
      → s.read_guards ≡ suc guards
      → Step s (record {
        readers = fetch_sub_one s.readers;
        read_guards = guards;
        write_guards = s.write_guards;
      })
  drop_write :
      (guards : ℕ)
      → s.write_guards ≡ suc guards
      → Step s
          (record { readers = no_lock_held; read_guards = s.read_guards; write_guards = guards })

pub data Reachable : State → Type 0 where
  start : Reachable unlocked
  next : {s t : State} → Reachable s → Step s t → Reachable t

-- Either one writer and no reader, or no writer and as many readers as the counter says.
abbrev pub IsExclusive : State → Type 0
IsExclusive s =
    ((s.write_guards ≡ 1) × (s.read_guards ≡ 0) × (s.readers ≡ write_lock_held))
    ⊎ ((s.write_guards ≡ 0) × (s.readers ≡ s.read_guards) × (s.readers < write_lock_held))

abbrev Attempts : ℕ → ReadAttempt → Type 0
Attempts loaded spin = Unit
Attempts loaded assert_fails = Unit
Attempts loaded (exchange expected new) = (new ≡ suc expected) × (new < write_lock_held)

read_attempt-Attempts : (loaded : ℕ) → Attempts loaded (read_attempt loaded)
unfolding read_attempt
read_attempt-Attempts loaded = elim (Bool-cases (loaded == write_lock_held)) [
  | inl held ↦ rw held tt
  | inr free ↦ elim (Bool-cases (ltb loaded (write_lock_held - 1))) [
    | inl room ↦ rw (free, room) (omega arith, ground arith)
    | inr full ↦ rw (free, full) tt
  ]
]

Step-IsExclusive : {s t : State} → Step s t → IsExclusive s → IsExclusive t
Step-IsExclusive {s} (read_lock loaded new e) inv =
    let (counts, below) = subst (Attempts loaded) e (read_attempt-Attempts loaded) in
    elim inv [
      | inl (one, no_reader, held) ↦ absurd (omega arith)
      | inr (none_writes, same, lt) ↦ inr (none_writes, omega arith, below)
    ]
Step-IsExclusive {s} (write_lock e) inv = elim inv [
  | inl (one, no_reader, held) ↦ absurd (omega arith)
  | inr (none_writes, same, lt) ↦ inl (ap suc none_writes, omega arith, refl)
]
Step-IsExclusive {s} (drop_read guards e) inv = elim inv [
  | inl (one, no_reader, held) ↦ absurd (omega arith)
  | inr (none_writes, same, lt) ↦ inr (none_writes, ground arith, ground arith)
]
Step-IsExclusive {s} (drop_write guards e) inv = elim inv [
  | inl (one, no_reader, held) ↦ inr (omega arith, sym no_reader, omega arith)
  | inr (none_writes, same, lt) ↦ absurd (omega arith)
]

-- In every state that a run of any number of threads reaches: at most one write guard is out, a write
-- guard and a read guard are never out together, and without a writer the counter is the number of
-- read guards and below the mark of a writer.
pub Reachable-IsExclusive : {s : State} → Reachable s → IsExclusive s
Reachable-IsExclusive start = inr (refl, refl, omega arith)
Reachable-IsExclusive (next reach step) = Step-IsExclusive step (Reachable-IsExclusive reach)
