-- ===== src/Sv39/Table/Sample.antt =====
-- A store with an empty root table, in the first of 64 frames.
use efiks_os.Prelude.{
  ℕ, ◌+◌, ◌*◌, ◌<◌, ◌≡◌, ==→≢, ≢→==, refl, sym, inl, inr, [], ◌∷◌, Option, none, some, ◌==◌,
  if◌then◌else◌, arith, Bool-cases, ==→≡, some_inj,
}
use efiks_os.Mm.Frames.Laws.{frame_bit}
use efiks_os.Sv39.{is_valid}
use efiks_os.Sv39.Table.{Store}
use efiks_os.Sv39.Table.Create.{frame_bit_lt}
use efiks_os.Sv39.Table.Entries.{IsTable}
use efiks_os.Sv39.Table.Walk.{IsTree}
use efiks_os.Prelude.Bits.{bit}

abbrev pub base_of_ram : ℕ
base_of_ram = 2147483648

abbrev pub empty_store : Store
empty_store = record {
  tables = λ t i. 0;
  frames = record { start_addr = base_of_ram; pages = 1 ∷ [] };
  counts = [];
  contents = λ f i. 0;
}

abbrev pub root_only : ℕ → Option ℕ
root_only t = if t == base_of_ram then some 2 else none

zero-not-IsTable : ¬ IsTable 0
unfolding is_valid
zero-not-IsTable (valid, _) = grind (arith, valid)

first_used :
    (frame : ℕ) → frame_bit (1 ∷ []) frame ≡ some 0 → root_only (base_of_ram + frame * 4096) ≡ none
unfolding frame_bit bit
first_used frame h = elim (Bool-cases (frame == 0)) [
  | inl e ↦ absurd (omega (arith, some_inj ((sym (rw (==→≡ frame 0 e) at h)))))
  | inr ne ↦
      rw (≢→== (base_of_ram + frame * 4096) base_of_ram (λ e. ==→≢ frame 0 ne (omega (arith, e))))
        refl
]

in_ram : (frame b : ℕ) → frame_bit (1 ∷ []) frame ≡ some b → frame < 64
in_ram frame b h = omega (arith, frame_bit_lt (1 ∷ []) frame b h)

pub empty-IsTree : IsTree empty_store root_only
empty-IsTree = record {
  child = λ t i l h is. absurd (zero-not-IsTable is);
  bottom = λ t i h is. absurd (zero-not-IsTable is);
  unique = λ t i t' i' l l' h h' is is' e. absurd (zero-not-IsTable is);
  word = λ t i. omega arith;
  fresh = first_used;
  reached = λ frame b h. omega (arith, in_ram frame b h);
  aligned = refl;
}
