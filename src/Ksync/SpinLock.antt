-- ===== src/Ksync/SpinLock.antt =====
-- ksync/src/spin_lock.rs: `SpinLock`. A step is one successful atomic access of one thread.
use efiks_os.Prelude.{ℕ, suc, ◌≡◌, refl, ap, subst, Bool, true, false, arith}

pub record State : Type 0 where
  pub flag : Bool
  pub guards : ℕ

abbrev pub unlocked : State
unlocked = record { flag = false; guards = 0 }

-- The exchange of `lock` succeeds only on a clear flag; dropping a guard clears it.
pub data Step (s : State) : State → Type 0 where
  lock : s.flag ≡ false → Step s (record { flag = true; guards = suc s.guards })
  unlock : (guards : ℕ) → s.guards ≡ suc guards → Step s (record { flag = false; guards = guards })

pub data Reachable : State → Type 0 where
  start : Reachable unlocked
  next : {s t : State} → Reachable s → Step s t → Reachable t

-- The flag says whether a guard is out, and at most one is.
abbrev pub Held : Bool → ℕ → Type 0
Held true guards = guards ≡ 1
Held false guards = guards ≡ 0

Step-Held : {s t : State} → Step s t → Held s.flag s.guards → Held t.flag t.guards
Step-Held {s} (lock e) inv = ap suc (subst (λ flag. Held flag s.guards) e inv)
Step-Held {s} (unlock guards e) inv = unlock-Held s.flag s.guards guards e inv
  where
    unlock-Held :
        (flag : Bool) (before guards : ℕ) → before ≡ suc guards → Held flag before → guards ≡ 0
    unlock-Held true before guards e inv = omega arith
    unlock-Held false before guards e inv = absurd (omega arith)

-- In every state that a run of any number of threads reaches, the flag is set when a guard is out, and
-- never more than one guard is out.
pub Reachable-Held : {s : State} → Reachable s → Held s.flag s.guards
Reachable-Held start = refl
Reachable-Held (next reach step) = Step-Held step (Reachable-Held reach)
