-- ===== src/Ksync/Tests.antt =====
-- One reader of the read-write lock, and one holder of the spin lock.
use efiks_os.Prelude.{refl, true}
use efiks_os.Ksync.RwLock
use efiks_os.Ksync.SpinLock

abbrev one_reader : RwLock.State
one_reader = record { readers = 1; read_guards = 1; write_guards = 0 }

one_reader-Reachable : RwLock.Reachable one_reader
unfolding RwLock.read_attempt
one_reader-Reachable = RwLock.next RwLock.start (RwLock.read_lock 0 1 refl)

Reachable-IsExclusive_example : RwLock.IsExclusive one_reader
Reachable-IsExclusive_example = RwLock.Reachable-IsExclusive {s = one_reader} one_reader-Reachable

one_holder-Reachable : SpinLock.Reachable (record { flag = true; guards = 1 })
one_holder-Reachable = SpinLock.next SpinLock.start (SpinLock.lock refl)

Reachable-Held_example : SpinLock.Held true 1
Reachable-Held_example =
    SpinLock.Reachable-Held {s = record { flag = true; guards = 1 }} one_holder-Reachable
