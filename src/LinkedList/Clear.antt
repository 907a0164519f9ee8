-- ===== src/LinkedList/Clear.antt =====
-- `list_remove_all` and `list_delete` of src/common/list.c: every node is given back once.
use eloop.Base.{
  ℕ, zero, suc, ◌+◌, ◌%◌, ◌^◌, ◌<◌, ◌≡◌, ◌≢◌, refl, ap, ◌∙◌, none, [], ◌∷◌, ne→==, Bool-cases, inl,
  inr, length, arith,
}
use eloop.Memory.{Ptr, null, Mem, ok, write, store_list}
use eloop.LinkedList.{
  FreeData, release, list_remove_node, remove_all_loop, list_remove_all, delete_loop, list_delete,
}
use eloop.LinkedList.Links.{Cells, has, ◌∈◌, ◌∉◌, first, IsList}
use eloop.LinkedList.Access.{SameOutside, list_get_head-ok}
use eloop.LinkedList.Remove.{list_remove_node-refines}

pub list_remove_node-null :
    {D : Type 0} (m : Mem D) {l : Ptr} (f : FreeData D)
    → l ≢ null
    → list_remove_node l null f m ≡ ok 0 m
unfolding list_remove_node
list_remove_node-null m {l} f ne = rw (ne→== l null ne)

-- The free function is called on the data of each cell, first to last.
unfoldable pub release_all : {D : Type 0} → FreeData D → Cells → D → D
release_all f [] d = d
release_all f ((p, i) ∷ xs) d = release_all f xs (release f i d)

-- What emptying the list `xs` at `l` leaves behind.
pub record Emptied {D : Type 0} (m m' : Mem D) (l : Ptr) (xs : Cells) (f : FreeData D)
    : Type 0 where
  pub user : m'.user ≡ release_all f xs m.user
  pub freed : (a : Ptr) → a ∈ xs → m'.node_at a ≡ none
  pub same : SameOutside m m' l xs

module _ {D : Type 0} {l : Ptr} (f : FreeData D) where
  Emptied-cons :
      {m m1 m' : Mem D} (p i : Ptr) (xs : Cells)
      → p ∉ xs
      → m1.user ≡ release f i m.user
      → m1.node_at p ≡ none
      → SameOutside m m1 l ((p, i) ∷ xs)
      → Emptied m1 m' l xs f
      → Emptied m m' l ((p, i) ∷ xs) f
  unfolding release_all
  Emptied-cons p i xs out u e s rest = record {
    user = rw (← u) rest.user;
    freed = λ a k. elim (Bool-cases (has a xs)) [
      | inl there ↦ rest.freed a there
      | inr other ↦ rest.same.nodes a other ∙ (ground arith)
    ];
    same = record {
      nodes = λ a o. rest.same.nodes a (ground arith) ∙ s.nodes a o;
      lists = λ k ne. rest.same.lists k ne ∙ s.lists k ne;
    };
  }

  Emptied-nil : (m : Mem D) → Emptied m m l [] f
  unfolding release_all
  Emptied-nil m = record {
    user = refl;
    freed = λ a k. cc;
    same = record { nodes = λ a o. refl; lists = λ k ne. refl };
  }

  remove_all_loop-run :
      (fuel : ℕ) (m : Mem D) (xs : Cells) (ret : ℕ)
      → IsList m l xs
      → length xs < fuel
      → ret < 2 ^ 32
      → (m' : Mem D) × (remove_all_loop fuel l (first xs null) f ret m
          ≡ ok ((ret + length xs) % 2 ^ 32) m')
        × IsList m' l []
        × Emptied m m' l xs f
  unfolding remove_all_loop
  remove_all_loop-run zero m xs ret is h r = absurd (omega arith)
  remove_all_loop-run (suc fuel) m [] ret is h r =
      (m, ap (λ n. ok n m) (omega arith), is, Emptied-nil m)
  remove_all_loop-run (suc fuel) m ((p, i) ∷ xs) ret is h r =
      let (m1, run, is1, u, e, s) = list_remove_node-refines [] p i xs is f in
      let (m', run', is', em) =
        remove_all_loop-run fuel m1 xs ((ret + 1) % 2 ^ 32) is1 (omega arith) (omega arith) in
      (
        m',
        rw (ne→== p null is.links.0, run, list_get_head-ok is1)
            (run' ∙ ap (λ n. ok n m') (omega arith)),
        is',
        Emptied-cons p i xs is.links.2 u e s em,
      )

  delete_loop-run :
      (fuel : ℕ) (m : Mem D) (xs : Cells)
      → IsList m l xs
      → length xs < fuel
      → (m' : Mem D) × (delete_loop fuel l f m ≡ ok tt m') × IsList m' l [] × Emptied m m' l xs f
  unfolding delete_loop
  delete_loop-run zero m xs is h = absurd (omega arith)
  delete_loop-run (suc fuel) m [] is h =
      (m, rw (list_get_head-ok is, list_remove_node-null m f is.ne_null), is, Emptied-nil m)
  delete_loop-run (suc fuel) m ((p, i) ∷ xs) is h =
      let (m1, run, is1, u, e, s) = list_remove_node-refines [] p i xs is f in
      let (m', run', is', em) = delete_loop-run fuel m1 xs is1 (omega arith) in
      (m', rw (list_get_head-ok is, run) run', is', Emptied-cons p i xs is.links.2 u e s em)

  module _ (fuel : ℕ) {m : Mem D} {xs : Cells} (is : IsList m l xs) (h : length xs < fuel) where
    -- `list_remove_all`, with more rounds than the list has nodes: the call returns the number of
    -- nodes modulo 2 ^ 32, leaves the list empty, has called the free function on the data of each node from
    -- first to last and given each node back, and all other nodes and lists are as they were.
    pub list_remove_all-run :
        (m' : Mem D) × (list_remove_all fuel l f m ≡ ok (length xs % 2 ^ 32) m')
        × IsList m' l []
        × Emptied m m' l xs f
    unfolding list_remove_all
    list_remove_all-run =
        let (m', run, is', em) = remove_all_loop-run fuel m xs 0 is h (omega arith) in
        (m', rw (list_get_head-ok is) (run ∙ ap (λ n. ok n m') (omega arith)), is', em)

    -- `list_delete`, with more rounds than the list has nodes: the caller's pointer becomes NULL,
    -- the header and every node are given back, the free function has been called on the data of
    -- each node from first to last, and all other nodes and lists are as they were.
    pub list_delete-run :
        (m' : Mem D) × (list_delete fuel l f m ≡ ok null m')
        × (m'.list_at l ≡ none)
        × Emptied m m' l xs f
    unfolding list_delete store_list
    list_delete-run =
        let (m1, run, is1, em) = delete_loop-run fuel m xs is h in
        (
          record m1 { list_at = write m1.list_at l none },
          rw (ne→== l null is.ne_null, run),
          ground arith,
          record {
            user = em.user;
            freed = em.freed;
            same = record {
              nodes = em.same.nodes;
              lists = λ k ne. ground (arith, ne→== k l ne, em.same.lists k ne);
            };
          },
        )
