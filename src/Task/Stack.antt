-- ===== src/Task/Stack.antt =====
-- kernel/src/task/task.rs: `create_initial_stack`, the arguments on the first stack of a task. The page of
-- the stack is reached by the kernel at `kernel_top`, which stands for the top of the stack.
use efiks_os.Prelude.{
  ℕ, ◌+◌, ◌-◌, ◌*◌, ◌%◌, List, [], ◌∷◌, ◌++◌, length, Result, ok, err, panic, ◌>>=◌, ltb, ◌==◌,
  if◌then◌else◌,
}
use efiks_os.Mm.Error.{Error, overflow, unaligned}
use efiks_os.Mm.Regions.{align_down, page_size}
use efiks_os.Syscall.{Memory, store_bytes}
use efiks_os.Syscall.Dispatch.{le_bytes}

-- `KernelPtr::new` for a type of that alignment
abbrev pub kernel_ptr : (align addr : ℕ) → Result Error ℕ
kernel_ptr align addr =
    if addr == 0 then err unaligned else (if addr % align == 0 then ok addr else err unaligned)

-- `offset_by`, backward
abbrev pub back_by : (addr amount : ℕ) → Result Error ℕ
back_by addr amount = if ltb addr amount then err overflow else ok (addr - amount)

-- The argument strings with their zeros.
abbrev pub strings_len : List (List ℕ) → ℕ
strings_len [] = 0
strings_len (arg ∷ args) = length arg + 1 + strings_len args

-- The loop over the arguments, the last first: each string goes below the cursor. Gives the memory, the
-- cursor and the addresses of the strings, in the order of the arguments.
unfoldable pub write_strings :
    Memory → (stack_top kernel_top : ℕ) → List (List ℕ) → Result Error (Memory × ℕ × List ℕ)
write_strings memory stack_top kernel_top [] = ok (memory, stack_top, [])
write_strings memory stack_top kernel_top (arg ∷ args) =
    write_strings memory stack_top kernel_top args >>= λ (memory', cursor, pointers).
    back_by cursor (length arg + 1) >>= λ at. back_by kernel_top (stack_top - at) >>= λ kernel_at.
    kernel_ptr 1 kernel_at >>= λ string_ptr.
    ok (store_bytes memory' string_ptr (arg ++ (0 ∷ [])), at, at ∷ pointers)

-- The words of the addresses, and the null pointer.
abbrev pub pointer_bytes : List ℕ → List ℕ
pointer_bytes [] = le_bytes 8 0
pointer_bytes (p ∷ pointers) = le_bytes 8 p ++ pointer_bytes pointers

unfoldable pub create_initial_stack :
    Memory → (user_sp kernel_top : ℕ) → List (List ℕ) → Result Error (Memory × ℕ)
unfolding write_strings align_down
create_initial_stack memory user_sp kernel_top argv =
    let page_start = align_down user_sp page_size in
    let stack_len = strings_len argv + (1 + length argv + 1) * 8 in
    if ltb (user_sp - page_start) stack_len
    then panic
    else (back_by user_sp stack_len >>= λ below.
        let final_sp = align_down below 16 in
        if ltb final_sp page_start
        then panic
        else (write_strings memory user_sp kernel_top argv >>= λ (memory', _, pointers).
            back_by kernel_top (user_sp - final_sp) >>= λ kernel_at.
            kernel_ptr 8 kernel_at >>= λ frame_ptr. ok (
              store_bytes memory' frame_ptr (le_bytes 8 (length argv) ++ pointer_bytes pointers),
              final_sp,
            )))
