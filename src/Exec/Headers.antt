-- ===== src/Exec/Headers.antt =====
-- `Elf::load_from_file` with the headers, and `convert_elf_flag_to_pte`. The parsers of the crate `elf`
-- and the opening of the path are parameters.
use efiks_os.Prelude.{
  ℕ, zero, suc, ◌*◌, ◌^◌, ◌≤◌, ◌<◌, ◌≡◌, bit_and, bit_or, Bool, ◌||◌, not, List, [], ◌∷◌, length,
  replicate, Option, none, some, Result, ok, err, panic, ◌>>=◌, ltb, leb, ◌==◌, if◌then◌else◌, All,
  ◌≢◌,
}
use efiks_os.Vfs.Device.{VfsError, fs}
use efiks_os.Vfs.File.{VNode, File, Errno, eoverflow, enoexec, to_errno}
use efiks_os.Mm.Error.{Error, errno}
use efiks_os.Sv39.{flag_r, flag_w, flag_x, flag_u}
use efiks_os.Exec.{read_exact_at}

pub data ElfError : Type 0 where
  unsupported size_overflow no_program_headers_found invalid_program_header invalid_virtual_address
        parse :
      ElfError

-- `IntoError for Error`
abbrev pub elf_errno : ElfError → Errno
elf_errno size_overflow = eoverflow
elf_errno _ = enoexec

abbrev pub elf_error : ElfError → Error
elf_error e = errno (elf_errno e)

pub record FileHeader : Type 0 where
  pub e_type : ℕ
  pub e_phoff : ℕ
  pub e_phnum : ℕ
  pub e_phentsize : ℕ
  pub e_entry : ℕ

pub record ProgramHeader : Type 0 where
  pub p_type : ℕ
  pub p_flags : ℕ
  pub p_offset : ℕ
  pub p_vaddr : ℕ
  pub p_filesz : ℕ
  pub p_memsz : ℕ

-- The crate `elf`: the lengths of the two parts of the header, `ET_EXEC`, `PN_XNUM` and `PT_LOAD`, the
-- parser of the header from both parts, and of a program header at an offset.
pub record ElfCrate : Type 0 where
  pub ident_size : ℕ
  pub tail_size : ℕ
  pub et_exec : ℕ
  pub pn_xnum : ℕ
  pub pt_load : ℕ
  pub parse_ident : List ℕ → Bool
  pub parse_tail : List ℕ → List ℕ → Option FileHeader
  pub parse_at : (offset : ℕ) → List ℕ → Option ProgramHeader

-- `PF_R`, `PF_W` and `PF_X` are 4, 2 and 1.
unfoldable pub convert_elf_flag_to_pte : ℕ → ℕ
convert_elf_flag_to_pte elf_flag =
    let r = if bit_and elf_flag 4 == 0 then flag_u else bit_or flag_u flag_r in
    let w = if bit_and elf_flag 2 == 0 then r else bit_or r flag_w in
    if bit_and elf_flag 1 == 0 then w else bit_or w flag_x

-- The outcome of a read of the file, as an error of the kernel.
abbrev pub from_vfs : {A : Type 0} → Result VfsError A → Result Error A
from_vfs (ok a) = ok a
from_vfs (err e) = err (errno (to_errno e))
from_vfs panic = panic

abbrev or_error : {A : Type 0} → Option A → Error → Result Error A
or_error none e = err e
or_error (some a) e = ok a

module _ (vnode : VNode) (crate : ElfCrate) where
  open crate use {ident_size, tail_size, et_exec, pn_xnum, parse_ident, parse_tail, parse_at}

  -- Every read seeks first and leaves the inode as it is, so that the file before it serves for the next.
  unfoldable pub read_bytes : File vnode → (offset count : ℕ) → Result Error (List ℕ)
  read_bytes f offset count = from_vfs ((read_exact_at vnode f offset (replicate count 0)).1)

  unfoldable pub read_elf_header : File vnode → Result Error FileHeader
  unfolding read_bytes
  read_elf_header f = read_bytes f 0 ident_size >>= λ ident.
      if not (parse_ident ident)
      then err (errno (to_errno fs))
      else (read_bytes f ident_size tail_size >>= λ tail.
          or_error (parse_tail ident tail) (errno (to_errno fs)))

  -- The loop over the program headers from `i` on.
  unfoldable pub parse_headers :
      (phentsize : ℕ) → List ℕ → (i count : ℕ) → Result Error (List ProgramHeader)
  parse_headers phentsize buf i zero = ok []
  parse_headers phentsize buf i (suc count) =
      let others = parse_headers phentsize buf (suc i) count in
      or_error (parse_at (i * phentsize) buf) (elf_error parse) >>= λ header.
      if ltb header.p_memsz header.p_filesz
      then err (elf_error invalid_program_header)
      else (others >>= λ headers. ok (header ∷ headers))

  unfoldable pub read_program_headers : File vnode → FileHeader → Result Error (List ProgramHeader)
  unfolding read_bytes parse_headers
  read_program_headers f header =
      if header.e_phoff == 0 || header.e_phnum == 0
      then err (elf_error no_program_headers_found)
      else (if header.e_phnum == pn_xnum
          then err (elf_error unsupported)
          else (if leb (2 ^ 16) (header.e_phentsize * header.e_phnum)
              then err (elf_error size_overflow)
              else (read_bytes f header.e_phoff (header.e_phentsize * header.e_phnum) >>= λ buf.
                  parse_headers header.e_phentsize buf 0 header.e_phnum)))

  -- `load_from_file`, of the opened file.
  unfoldable pub load_from_file : File vnode → Result Error (FileHeader × List ProgramHeader)
  unfolding read_elf_header read_program_headers
  load_from_file f = read_elf_header f >>= λ header.
      if not (header.e_type == et_exec)
      then err (elf_error unsupported)
      else (read_program_headers f header >>= λ headers. ok (header, headers))

  -- What is known of an executable that is loaded.
  abbrev pub IsLoadable : FileHeader → List ProgramHeader → Type 0
  IsLoadable header headers =
      (header.e_type ≡ et_exec)
      × (length headers ≡ header.e_phnum)
      × (1 ≤ header.e_phnum)
      × (header.e_phnum ≢ pn_xnum)
      × (header.e_phentsize * header.e_phnum < 2 ^ 16)
      × All (λ (h : ProgramHeader). h.p_filesz ≤ h.p_memsz) headers
