-- ===== src/LinkedList/Tests.antt =====
-- A list of two nodes, and the calls of src/common/list.c on it.
use eloop.Base.{
  ℕ, ◌≡◌, refl, inl, ◌∷◌, [], ◌++◌, none, some, ◌==◌, if◌then◌else◌, pos, ◌+◌, ◌%◌, ◌^◌, arith,
}
use eloop.Memory.{null, node, handle, Mem, ok}
use eloop.LinkedList.{
  FreeData, list_append_after, list_append_before, list_remove_node, list_remove_data, list_delete,
}
use eloop.LinkedList.Links.{Cells, IsList}
use eloop.LinkedList.Access.{SameOutside}
use eloop.LinkedList.Insert.{IsFresh, Inserted}
use eloop.LinkedList.Clear.{Emptied, list_delete-run}
use eloop.LinkedList.Matches.{matches}
use eloop.LinkedList.Purge.{Purged, list_remove_data-run}
use eloop.LinkedList.Remove.{list_remove_node-refines}
use eloop.LinkedList.AppendAfter.{list_append_after-refines}
use eloop.LinkedList.AppendBefore.{list_append_before-refines}

-- The list at 1 has the nodes 11 and 12 with the data 21 and 22; the rest of the memory is a number.
abbrev two : Mem ℕ
two = record {
  node_at =
      λ a. if a == 11 then some (node 0 12 21) else if a == 12 then some (node 11 0 22) else none;
  list_at = λ a. if a == 1 then some (handle 11 12 2) else none;
  user = 0;
}

abbrev first_cell : Cells
first_cell = (11, 21) ∷ []

abbrev last_cell : Cells
last_cell = (12, 22) ∷ []

two-IsList : IsList two 1 (first_cell ++ last_cell)
two-IsList = record {
  ne_null = ground arith;
  unmapped = refl;
  header = refl;
  links = (ground arith, refl, refl, (ground arith, refl, refl, tt));
}

thirteen-IsFresh : IsFresh two 13
thirteen-IsFresh = record { ne_null = ground arith; unused = refl }

-- A free function that counts.
abbrev counting : FreeData ℕ
counting = some (λ i d. d + 1)

list_remove_node-refines_example :
    (m' : Mem ℕ) × (list_remove_node 1 11 counting two ≡ ok 1 m')
    × IsList m' 1 last_cell
    × (m'.user ≡ 1)
    × (m'.node_at 11 ≡ none)
    × SameOutside two m' 1 (first_cell ++ last_cell)
list_remove_node-refines_example = list_remove_node-refines [] 11 21 last_cell two-IsList counting

list_append_after-refines_example :
    (m' : Mem ℕ) × (list_append_after 13 1 23 11 two ≡ ok (pos 0) m')
    × Inserted two m' 1 13 23 first_cell last_cell
list_append_after-refines_example =
    list_append_after-refines 23 first_cell last_cell two-IsList thirteen-IsFresh (inl (λ e. cc e))

list_append_before-refines_example :
    (m' : Mem ℕ) × (list_append_before 13 1 23 12 two ≡ ok (pos 0) m')
    × Inserted two m' 1 13 23 first_cell last_cell
list_append_before-refines_example =
    list_append_before-refines 23 first_cell last_cell two-IsList thirteen-IsFresh (inl (λ e. cc e))

list_remove_data-run_example :
    (m' : Mem ℕ) × (list_remove_data 3 1 22 none counting two
      ≡ ok (matches none counting 22 (first_cell ++ last_cell) two.user % 2 ^ 32) m')
    × Purged none counting 22 two m' 1 [] (first_cell ++ last_cell)
list_remove_data-run_example = list_remove_data-run none counting 22 3 two-IsList (omega arith)

list_delete-run_example :
    (m' : Mem ℕ) × (list_delete 3 1 counting two ≡ ok null m')
    × (m'.list_at 1 ≡ none)
    × Emptied two m' 1 (first_cell ++ last_cell) counting
list_delete-run_example = list_delete-run counting 3 two-IsList (omega arith)
