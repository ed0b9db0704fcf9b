-- ===== src/Sv39/Table/Descend.antt =====
-- `get_or_create_next_table` on tables that form a tree, whether the next table is there or not.

use efiks_os.Prelude.{
  ℕ, suc, ◌+◌, ◌^◌, ◌<◌, ◌≡◌, ◌≢◌, refl, ap, ◌⊎◌, inl, inr, false, List, Option, none, some, ok,
  arith, ==-refl,
}
use efiks_os.Mm.Frames.{FrameAllocator}
use efiks_os.Mm.Frames.Laws.{frame_bit, AllocatesFrame}
use efiks_os.Sv39.{is_valid, address_bits, virtual_from_raw}
use efiks_os.Sv39.Address.{Accepts, virtual_from_raw-Accepts}
use efiks_os.Sv39.Table.{PageSize, Store, get_or_create_next_table, direct_mapping_base}
use efiks_os.Sv39.Table.Entries.{IsTable}
use efiks_os.Sv39.Table.Walk.{IsTree, leaf_at}
use efiks_os.Sv39.Table.Create.{
  created, level', in_reach, created-IsTree, extends, new-IsTable, new_target, same_walks,
  kept_entries, one_free, alloc_frame-Takes,
}

reach-some :
    (pa : ℕ)
    → pa + direct_mapping_base < 2 ^ 64
    → virtual_from_raw (pa + direct_mapping_base) ≡ some (pa + direct_mapping_base)
reach-some pa h = from (virtual_from_raw (pa + direct_mapping_base)) (virtual_from_raw-Accepts _ h)
  where
    from :
        (o : Option ℕ) → Accepts (pa + direct_mapping_base) o → o ≡ some (pa + direct_mapping_base)
    from (some a) (e, half) = ap some e
    from none (low, high) = absurd (omega arith)

-- What `get_or_create_next_table` leaves: the tables form a tree, in which the entry leads to the table
-- that is returned, and every earlier table keeps its level, its entries that lead on and its walks.
pub record Descends (s : Store) (level : ℕ → Option ℕ) (t i l : ℕ) (s' : Store) (t' : ℕ)
    (level' : ℕ → Option ℕ) : Type 0 where
  pub tree : IsTree s' level'
  pub extends : (x m : ℕ) → level x ≡ some m → level' x ≡ some m
  pub below : level' t' ≡ some l
  pub leads : IsTable (s'.tables t i)
  pub target : address_bits (s'.tables t i) ≡ t'
  pub same :
      (path : List (ℕ × PageSize)) (x m : ℕ)
      → level x ≡ some m
      → leaf_at s'.tables x path ≡ leaf_at s.tables x path
  pub kept : (x j m : ℕ) → level x ≡ some m → IsTable (s.tables x j) → s'.tables x j ≡ s.tables x j
  pub left_over :
      (f g : ℕ)
      → frame_bit s.frames.pages f ≡ some 0
      → frame_bit s.frames.pages g ≡ some 0
      → f ≢ g
      → (h : ℕ) × (frame_bit s'.frames.pages h ≡ some 0)

module _ (s : Store) (level : ℕ → Option ℕ) (tree : IsTree s level) (t i l : ℕ)
    (above : level t ≡ some (suc l)) where
  keeps : IsTable (s.tables t i) → Descends s level t i l s (address_bits (s.tables t i)) level
  keeps is = record {
    tree = tree;
    extends = λ x m h. h;
    below = tree.child t i l above is;
    leads = is;
    target = refl;
    same = λ path x m h. refl;
    kept = λ x j m h is'. refl;
    left_over = λ f g hf hg ne. (f, hf);
  }

  makes :
      (invalid : is_valid (s.tables t i) ≡ false) (frames' : FrameAllocator) (pa : ℕ)
      (found : AllocatesFrame s.frames (frames', ok pa))
      → Descends s level t i l
          (created s level tree t i l above invalid frames' pa found)
          pa
          (level' s level tree t i l above invalid frames' pa found)
  makes invalid frames' pa found = record {
    tree = created-IsTree s level tree t i l above invalid frames' pa found;
    extends = extends s level tree t i l above invalid frames' pa found;
    below = rw (==-refl pa) refl;
    leads = new-IsTable s level tree t i l above invalid frames' pa found;
    target = new_target s level tree t i l above invalid frames' pa found;
    same = same_walks s level tree t i l above invalid frames' pa found;
    kept = kept_entries s level tree t i l above invalid frames' pa found;
    left_over = one_free s level tree t i l above invalid frames' pa found;
  }

  -- With a free frame, unless the entry is a leaf.
  pub get_or_create_next_table-Descends :
      (f : ℕ)
      → frame_bit s.frames.pages f ≡ some 0
      → is_valid (s.tables t i) ≡ false ⊎ IsTable (s.tables t i)
      → (s' : Store) × (t' : ℕ) × (level' : ℕ → Option ℕ) × (get_or_create_next_table
            direct_mapping_base s t i
          ≡ ok (s', t'))
        × Descends s level t i l s' t' level'
  unfolding get_or_create_next_table
  get_or_create_next_table-Descends f free (inr (valid, deeper)) =
      (s, address_bits (s.tables t i), level, rw (valid, deeper) refl, keeps (valid, deeper))
  get_or_create_next_table-Descends f free (inl invalid) =
      let ((frames', pa), (taken, found)) =
        alloc_frame-Takes s.frames f free (λ j b h. omega (arith, tree.reached j b h)) in
      (
        created s level tree t i l above invalid frames' pa found,
        pa,
        level' s level tree t i l above invalid frames' pa found,
        rw
            (
              invalid,
              taken,
              reach-some pa (in_reach s level tree t i l above invalid frames' pa found),
            )
            refl,
        makes invalid frames' pa found,
      )
