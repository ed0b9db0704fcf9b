-- ===== src/Vsfs/Blocks/Tests.antt =====
-- Reading and writing a file of 5000 bytes in memory.
use efiks_os.Prelude.{
  ℕ, zero, suc, ◌+◌, ◌<◌, ◌≡◌, refl, List, [], ◌∷◌, replicate, get_elem?, some, ok, ap, ◌∙◌, ltb→lt,
  arith, Bool-cases, ltb, inl, inr,
}
use efiks_os.Vfs.Memory.{Disk, memory, memory-IsReliable}
use efiks_os.Vsfs.Layout.{InodeInner, file}
use efiks_os.Vsfs.Blocks.{data_block, indirect_pointer, write}
use efiks_os.Vsfs.Blocks.Write.{IsUnshared}
use efiks_os.Vsfs.Blocks.WriteLoop.{Writes, write-Writes}

abbrev count_from : ℕ → ℕ → List ℕ
count_from a zero = []
count_from a (suc n) = a ∷ count_from (suc a) n

get_elem?-count_from : (a n i : ℕ) → i < n → get_elem? (count_from a n) i ≡ some (a + i)
get_elem?-count_from a zero i h = absurd (omega arith)
get_elem?-count_from a (suc n) zero h = ap some {x = a} {y = a + 0} (omega arith)
get_elem?-count_from a (suc n) (suc i) h =
    get_elem?-count_from (suc a) n i (omega arith)
    ∙ ap some {x = suc a + i} {y = a + suc i} (omega arith)

abbrev zeroed : Disk
zeroed = record { sectors = 160; contents = λ s. replicate 512 0 }

abbrev small_file : InodeInner
small_file = record {
  ty = file;
  link_count = 1;
  metadata = record { dev = 0; sz = 5000 };
  direct_blocks = count_from 5 12;
  indirect_block = 0;
}

small_file-block : (l b : ℕ) → data_block memory zeroed small_file l ≡ ok b → b ≡ l + 5
unfolding data_block indirect_pointer
small_file-block l b = elim (Bool-cases (ltb l 12)) [
  | inl direct ↦ rw (direct, get_elem?-count_from 5 12 l (ltb→lt l 12 direct)) (λ e. ground arith)
  | inr indirect ↦ rw indirect (λ e. ground arith)
]

small_file-IsUnshared : IsUnshared memory zeroed small_file
small_file-IsUnshared = record {
  distinct = λ l l' b e e'. omega (arith, small_file-block l b e, small_file-block l' b e');
  apart = λ l b e same. omega (arith, small_file-block l b e);
}

abbrev two_bytes : List ℕ
two_bytes = 7 ∷ 8 ∷ []

write-Writes_example :
    Writes memory small_file two_bytes zeroed 4095 0 2
      (write memory small_file 4095 two_bytes zeroed)
write-Writes_example =
    write-Writes memory small_file two_bytes memory-IsReliable refl zeroed 4095
      small_file-IsUnshared refl
