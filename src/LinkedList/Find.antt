-- ===== src/LinkedList/Find.antt =====
-- The searches of src/common/list.c against the first match in the sequence.
use eloop.Base.{
  ℕ, zero, suc, ◌<◌, ◌≡◌, refl, inl, inr, Bool-cases, [], ◌∷◌, ◌==◌, if◌then◌else◌, ne→==, length,
  arith,
}
use eloop.Memory.{Ptr, null, Mem, ok}
use eloop.LinkedList.{DataCmp, is_equal, list_find_begin, list_find, list_is_exist}
use eloop.LinkedList.Links.{Cells, first, Links, IsList}
use eloop.LinkedList.Access.{list_get_data-ok, list_get_next-ok, list_get_head-ok}

module _ {D : Type 0} (cmp : DataCmp D) (d : D) (item : Ptr) where
  -- The address of the first cell whose data the comparison accepts, or NULL.
  unfoldable pub find_cell : Cells → Ptr
  find_cell [] = null
  find_cell ((p, i) ∷ xs) = if is_equal cmp d i item then p else find_cell xs

module _ {D : Type 0} {m : Mem D} (item : Ptr) (cmp : DataCmp D) where
  pub list_find_begin-run :
      (fuel : ℕ) (before : Ptr) (ys : Cells)
      → Links m.node_at before ys null
      → length ys < fuel
      → list_find_begin fuel (first ys null) item cmp m ≡ ok (find_cell cmp m.user item ys) m
  unfolding list_find_begin find_cell
  list_find_begin-run zero before ys s f = absurd (omega arith)
  list_find_begin-run (suc fuel) before [] s f = refl
  list_find_begin-run (suc fuel) before ((p, i) ∷ ys) s f =
      rw (ne→== p null s.0, list_get_data-ok m p _ s.0 s.1)
        (elim (Bool-cases (is_equal cmp m.user i item)) [
          | inl hit ↦ rw hit
          | inr miss ↦
              rw (miss, list_get_next-ok m p _ s.0 s.1)
                (list_find_begin-run fuel p ys s.3 (omega arith))
        ])

  -- `list_find`, with more rounds than the list has nodes, returns the address of the first node
  -- whose data the comparison accepts, or NULL, and changes nothing.
  pub list_find-run :
      (fuel : ℕ) {l : Ptr} {xs : Cells}
      → IsList m l xs
      → length xs < fuel
      → list_find fuel l item cmp m ≡ ok (find_cell cmp m.user item xs) m
  unfolding list_find
  list_find-run fuel {xs = xs} is f =
      rw (list_get_head-ok is) (list_find_begin-run fuel null xs is.links f)

  pub list_is_exist-run :
      (fuel : ℕ) {l : Ptr} {xs : Cells}
      → IsList m l xs
      → length xs < fuel
      → list_is_exist fuel l item cmp m
        ≡ ok (if find_cell cmp m.user item xs == null then 0 else 1) m
  unfolding list_is_exist
  list_is_exist-run fuel is f = rw (list_find-run fuel is f)
