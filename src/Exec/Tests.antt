-- ===== src/Exec/Tests.antt =====
-- A file of three bytes that is read one byte at a time, and an executable with one segment.
use efiks_os.Prelude.{
  ℕ, ◌-◌, refl, true, List, [], ◌∷◌, length, splice, slice, min, some, ok, arith,
}
use efiks_os.Vfs.File.{VNode, File}
use efiks_os.Exec.{read_exact_at}
use efiks_os.Exec.ReadExact.{ReadsContents, ReadsExactly, read_exact_at-ReadsExactly}
use efiks_os.Exec.Headers.{ElfCrate, FileHeader, ProgramHeader}

-- One byte, where the buffer and the contents have one.
abbrev one_byte : ℕ → ℕ
one_byte room = min 1 room

abbrev slow_file : VNode
slow_file = record {
  State = List ℕ;
  read = λ bytes off buf.
      let n = one_byte (min (length buf) (length bytes - off)) in
      (ok n, splice buf 0 (slice bytes off n));
  write = λ off buf bytes. (bytes, ok 0);
  sz = λ bytes. length bytes;
}

slow_file-ReadsContents : ReadsContents slow_file (λ bytes. bytes)
slow_file-ReadsContents bytes off buf h = (
  one_byte (min (length buf) (length bytes - off)),
  omega arith,
  omega arith,
  (λ some_bytes. omega arith),
  refl,
)

abbrev three_bytes : File slow_file
three_bytes = record { inode = 7 ∷ 8 ∷ 9 ∷ []; offset = 0 }

read_exact_at-ReadsExactly_example :
    ReadsExactly slow_file
      (λ bytes. bytes)
      slow_file-ReadsContents
      (7 ∷ 8 ∷ 9 ∷ [])
      1
      2
      ((read_exact_at slow_file three_bytes 1 (0 ∷ 0 ∷ [])).1)
read_exact_at-ReadsExactly_example =
    read_exact_at-ReadsExactly slow_file (λ bytes. bytes) slow_file-ReadsContents (λ bytes. refl)
      three_bytes 1 (0 ∷ 0 ∷ []) (omega arith)

abbrev small_header : FileHeader
small_header = record { e_type = 2; e_phoff = 2; e_phnum = 1; e_phentsize = 1; e_entry = 65536 }

abbrev small_segment : ProgramHeader
small_segment = record {
  p_type = 1;
  p_flags = 5;
  p_offset = 0;
  p_vaddr = 65536;
  p_filesz = 3;
  p_memsz = 4096;
}

abbrev small_crate : ElfCrate
small_crate = record {
  ident_size = 1;
  tail_size = 1;
  et_exec = 2;
  pn_xnum = 65535;
  pt_load = 1;
  parse_ident = λ ident. true;
  parse_tail = λ ident tail. some small_header;
  parse_at = λ offset buf. some small_segment;
}
