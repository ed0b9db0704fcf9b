-- ===== src/Task/FileTable.antt =====
-- kernel/src/task/file_table.rs: the open files of a task. A file that is shared with another table is
-- any value here.
use efiks_os.Prelude.{
  ℕ, zero, suc, ◌<◌, ◌≡◌, ◌≢◌, refl, ◌∙◌, ap, List, [], ◌∷◌, Option, none, some, arith,
}

module _ {ℓ} {File : Type ℓ} where
  -- `add_file`: the first free slot takes the file, or a slot at the end; also the slot's index.
  unfoldable pub add_file : List (Option File) → File → List (Option File) × ℕ
  add_file [] file = (some file ∷ [], 0)
  add_file (none ∷ slots) file = (some file ∷ slots, 0)
  add_file (some f ∷ slots) file =
      let (slots', fd) = add_file slots file in (some f ∷ slots', suc fd)

  unfoldable pub get_file : List (Option File) → ℕ → Option File
  get_file [] fd = none
  get_file (slot ∷ slots) zero = slot
  get_file (slot ∷ slots) (suc fd) = get_file slots fd

  -- `close_file`: the slot is emptied; also what it held.
  unfoldable pub close_file : List (Option File) → ℕ → List (Option File) × Option File
  close_file [] fd = ([], none)
  close_file (slot ∷ slots) zero = (none ∷ slots, slot)
  close_file (slot ∷ slots) (suc fd) =
      let (slots', file) = close_file slots fd in (slot ∷ slots', file)

  unfoldable pub destroy : List (Option File) → List (Option File)
  destroy slots = []

  -- The new table against the old one: the file is at the descriptor, which was free and the lowest
  -- free one, and the other descriptors keep their files.
  abbrev pub Adds : List (Option File) → File → List (Option File) × ℕ → Type ℓ
  Adds slots file (slots', fd) =
      (get_file slots fd ≡ none)
      × ((j : ℕ) → j < fd → get_file slots j ≢ none)
      × (get_file slots' fd ≡ some file)
      × ((j : ℕ) → j ≢ fd → get_file slots' j ≡ get_file slots j)

  get_file-head :
      (a b : Option File) (slots : List (Option File)) (j : ℕ)
      → j ≢ 0
      → get_file (a ∷ slots) j ≡ get_file (b ∷ slots) j
  unfolding get_file
  get_file-head a b slots zero ne = absurd (ne refl)
  get_file-head a b slots (suc j) ne = refl

  get_file-tail :
      (a : Option File) (slots slots' : List (Option File)) (fd : ℕ)
      → ((j : ℕ) → j ≢ fd → get_file slots' j ≡ get_file slots j)
      → (j : ℕ) → j ≢ suc fd
      → get_file (a ∷ slots') j ≡ get_file (a ∷ slots) j
  unfolding get_file
  get_file-tail a slots slots' fd same zero ne = refl
  get_file-tail a slots slots' fd same (suc j) ne = same j (λ e. ne (ap suc e))

  get_file-taken :
      (f : File) (slots : List (Option File)) (fd : ℕ)
      → ((j : ℕ) → j < fd → get_file slots j ≢ none)
      → (j : ℕ) → j < suc fd
      → get_file (some f ∷ slots) j ≢ none
  unfolding get_file
  get_file-taken f slots fd taken zero lt = grind arith
  get_file-taken f slots fd taken (suc j) lt = taken j (omega arith)

  -- For every table and file: `add_file` takes the lowest descriptor that has no file, the file can be
  -- read there, and every other descriptor keeps what it had.
  pub add_file-Adds :
      (slots : List (Option File)) (file : File) → Adds slots file (add_file slots file)
  unfolding add_file get_file
  add_file-Adds [] file = (
    refl,
    (λ j lt. elim lt [ ]),
    refl,
    (λ j ne. get_file-head (some file) none [] j ne ∙ get_file-none j),
  )
    where
      get_file-none : (j : ℕ) → get_file (none ∷ []) j ≡ none
      get_file-none zero = refl
      get_file-none (suc j) = refl
  add_file-Adds (none ∷ slots) file =
      (refl, (λ j lt. elim lt [ ]), refl, get_file-head (some file) none slots)
  add_file-Adds (some f ∷ slots) file =
      let (free, taken, here, others) = add_file-Adds slots file in
      let (slots', fd) = add_file slots file in
      (free, get_file-taken f slots fd taken, here, get_file-tail (some f) slots slots' fd others)

  -- For every table and descriptor: `close_file` gives what `get_file` gave, the descriptor is free
  -- afterwards, and every other descriptor keeps its file.
  pub close_file-Closes :
      (slots : List (Option File)) (fd : ℕ)
      → ((close_file slots fd).1 ≡ get_file slots fd)
        × (get_file (close_file slots fd).0 fd ≡ none)
        × ((j : ℕ) → j ≢ fd → get_file (close_file slots fd).0 j ≡ get_file slots j)
  unfolding close_file get_file
  close_file-Closes [] fd = (refl, refl, λ j ne. refl)
  close_file-Closes (slot ∷ slots) zero = (refl, refl, get_file-head none slot slots)
  close_file-Closes (slot ∷ slots) (suc fd) =
      let (same, free, others) = close_file-Closes slots fd in
      (same, free, get_file-tail slot slots (close_file slots fd).0 fd others)
