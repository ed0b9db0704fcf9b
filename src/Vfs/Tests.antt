-- ===== src/Vfs/Tests.antt =====
-- Mounts and open files at concrete values.
use efiks_os.Prelude.{ℕ, List, [], ◌∷◌, length, ok, arith}
use efiks_os.Vfs.File.{VNode, File, end, negsuc, seek}
use efiks_os.Vfs.File.Seek.{Seeks, seek-Seeks}
use efiks_os.Vfs.Mounts.{Mounts, resolve_path}
use efiks_os.Vfs.Mounts.Laws.{Resolves, resolve_path-Resolves}

-- A file that holds three bytes.
abbrev three_bytes : VNode
three_bytes = record {
  State = List ℕ;
  read = λ s offset buf. (ok 0, buf);
  write = λ offset buf s. (s, ok 0);
  sz = length;
}

abbrev opened : File three_bytes
opened = record { inode = 1 ∷ 2 ∷ 3 ∷ []; offset = 1 }

seek-Seeks_example :
    Seeks three_bytes opened (end (negsuc 0)) (seek three_bytes opened (end (negsuc 0)))
seek-Seeks_example = seek-Seeks three_bytes opened (end (negsuc 0)) (omega arith)

-- `/m` and `/`
abbrev two_mounts : Mounts ℕ
two_mounts = (47 ∷ 109 ∷ [], 1) ∷ (47 ∷ [], 0) ∷ []

resolve_path-Resolves_example :
    Resolves two_mounts
      (47 ∷ 109 ∷ 47 ∷ 97 ∷ [])
      (resolve_path two_mounts (47 ∷ 109 ∷ 47 ∷ 97 ∷ []))
resolve_path-Resolves_example = resolve_path-Resolves two_mounts (47 ∷ 109 ∷ 47 ∷ 97 ∷ [])
