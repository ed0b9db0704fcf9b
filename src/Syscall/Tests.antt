-- ===== src/Syscall/Tests.antt =====
-- One open file of five bytes, read into memory, and a negative exit code.
use efiks_os.Prelude.{
  ℕ, ◌-◌, ◌^◌, ◌≡◌, refl, inl, List, [], ◌∷◌, length, take, min, none, some, ok, err, arith, splice,
}
use efiks_os.Vfs.Device.{VfsError}
use efiks_os.Vfs.Device
use efiks_os.Syscall.{FileOps}
use efiks_os.Syscall.Files.{Caller}
use efiks_os.Syscall.Dispatch.{TaskOps, dispatch_syscall, returns}
use efiks_os.Syscall.Laws.{dispatch_syscall-refuses_negative}

-- A file whose contents are the world; it is read from the start.
abbrev read_bytes : List ℕ → List ℕ → List ℕ
read_bytes bytes buf = take (min (length bytes) (length buf)) bytes

abbrev one_file : FileOps
one_file = record {
  World = List ℕ;
  Handle = Unit;
  read = λ file buf bytes.
      (bytes, ok (min (length bytes) (length buf)), splice buf 0 (read_bytes bytes buf));
  write = λ file bytes world. (world, err Device.fs);
  open_path = λ path world. (world, err Device.not_found);
  create_path = λ path world. (world, err Device.fs);
}

abbrev caller : Caller one_file
caller = record {
  memory = λ at. 0;
  table = none ∷ some tt ∷ [];
  world = b'h' ∷ b'e' ∷ b'l' ∷ b'l' ∷ b'o' ∷ [];
}

abbrev no_tasks : TaskOps one_file
no_tasks = record {
  exit = λ c code. c;
  sleep = λ c ms. c;
  current_pid = λ c. 1;
  brk = λ c addr. (c, ok addr);
  fork = λ c. (c, ok 2);
  wait = λ c. (c, ok (2, 0));
  spawn = λ c path args. (c, ok 3);
}

dispatch_syscall-refuses_negative_example :
    dispatch_syscall one_file no_tasks caller (record { a0 = 2 ^ 64 - 1; a1 = 0; a2 = 0; a7 = 93 })
    ≡ (caller, returns (2 ^ 64 - 22))
dispatch_syscall-refuses_negative_example =
    dispatch_syscall-refuses_negative one_file no_tasks caller
      (record { a0 = 2 ^ 64 - 1; a1 = 0; a2 = 0; a7 = 93 }) (inl refl) (omega arith)
