-- ===== src/LinkedList/Purge.antt =====
-- `list_remove` and `list_remove_data` of src/common/list.c against recursive definitions.
use eloop.Base.{
  ℕ, zero, suc, ◌+◌, ◌%◌, ◌^◌, ◌<◌, ◌≡◌, refl, sym, ap, ◌∙◌, subst, inl, inr, none, true, [], ◌∷◌,
  ◌++◌, append_assoc, ne→==, length, arith,
}
use eloop.Memory.{Ptr, null, Mem, ok}
use eloop.LinkedList.{
  DataCmp, FreeData, is_equal, release, list_get_next, list_remove, remove_data_loop,
  list_remove_data,
}
use eloop.LinkedList.Links.{Cells, has, first, last, IsList, Links-right, has-append}
use eloop.LinkedList.Access.{SameOutside, list_get_head-ok, list_get_next-ok}
use eloop.LinkedList.Find.{find_cell, list_find_begin-run, list_find-run}
use eloop.LinkedList.Matches.{
  survivors, released, matches, NoMatch, Split, split, erase, erase-split, survivors-none,
  released-none, matches-none, survivors-split, released-split, matches-split, length-split,
}
use eloop.LinkedList.Remove.{list_remove_node-refines}
use eloop.LinkedList.Clear.{list_remove_node-null}

module _ {D : Type 0} (cmp : DataCmp D) (f : FreeData D) (item : Ptr) where
  -- A node found in the part `ys` of a list: what lies round it.
  around :
      {m : Mem D} {l : Ptr} (xs ys : Cells)
      → IsList m l (xs ++ ys)
      → (s : Split cmp f item ys m.user) → IsList m l ((xs ++ s.before) ++ (s.p, s.i) ∷ s.after)
  around {m} {l} xs ys is s =
      subst (IsList m l)
        (ap (λ r. xs ++ r) s.parts ∙ sym (append_assoc xs s.before ((s.p, s.i) ∷ s.after))) is

  -- The successor that the loop reads before it removes the node.
  next-run :
      {m : Mem D} {l : Ptr} (us : Cells) (p i : Ptr) (vs : Cells)
      → IsList m l (us ++ (p, i) ∷ vs)
      → list_get_next p m ≡ ok (first vs null) m
  next-run {m} us p i vs is =
      let at = Links-right m.node_at null us ((p, i) ∷ vs) null is.links in
      list_get_next-ok m p _ at.0 at.1

  loop-null :
      (m : Mem D) (l : Ptr) (fuel ret : ℕ)
      → 0 < fuel
      → remove_data_loop fuel l null item cmp f ret m ≡ ok ret m
  unfolding remove_data_loop
  loop-null m l zero ret h = absurd (omega arith)
  loop-null m l (suc fuel) ret h = refl

  -- What the loop leaves behind when it has gone through `ys`, behind `xs`.
  pub record Purged (m m' : Mem D) (l : Ptr) (xs ys : Cells) : Type 0 where
    pub list : IsList m' l (xs ++ survivors cmp f item ys m.user)
    pub user : m'.user ≡ released cmp f item ys m.user
    pub same : SameOutside m m' l (xs ++ ys)

  Purged-none :
      (m : Mem D) (l : Ptr) (xs ys : Cells)
      → IsList m l (xs ++ ys)
      → NoMatch cmp f item ys m.user
      → Purged m m l xs ys
  Purged-none m l xs ys is miss = record {
    list = rw (survivors-none cmp f item ys m.user miss) is;
    user = sym (released-none cmp f item ys m.user miss);
    same = record { nodes = λ a o. refl; lists = λ k ne. refl };
  }

  Purged-Split :
      (m m1 m' : Mem D) (l : Ptr) (xs ys : Cells) (s : Split cmp f item ys m.user)
      → m1.user ≡ release f s.i m.user
      → SameOutside m m1 l ((xs ++ s.before) ++ (s.p, s.i) ∷ s.after)
      → Purged m1 m' l (xs ++ s.before) s.after
      → Purged m m' l xs ys
  Purged-Split m m1 m' l xs ys s u same rest = record {
    list =
        subst (IsList m' l)
          (append_assoc xs s.before _
            ∙ ap (λ r. xs ++ r) (rw u (sym (survivors-split cmp f item ys m.user s))))
          rest.list;
    user = rest.user ∙ rw u (sym (released-split cmp f item ys m.user s));
    same = record {
      nodes = λ a o. ground (
        arith,
        rest.same.nodes a,
        same.nodes a,
        has-append a xs ys,
        ap (has a) s.parts,
        has-append a s.before ((s.p, s.i) ∷ s.after),
        has-append a xs s.before,
        has-append a (xs ++ s.before) s.after,
        has-append a (xs ++ s.before) ((s.p, s.i) ∷ s.after),
      );
      lists = λ k ne. rest.same.lists k ne ∙ same.lists k ne;
    };
  }

  remove_data_loop-run :
      (fuel : ℕ) (m : Mem D) {l : Ptr} (xs ys : Cells) (ret : ℕ)
      → IsList m l (xs ++ ys)
      → length ys < fuel
      → ret < 2 ^ 32
      → (m' : Mem D) × (remove_data_loop fuel l (first ys null) item cmp f ret m
          ≡ ok ((ret + matches cmp f item ys m.user) % 2 ^ 32) m')
        × Purged m m' l xs ys
  unfolding remove_data_loop
  remove_data_loop-run zero m xs ys ret is h r = absurd (omega arith)
  remove_data_loop-run (suc fuel) m {l} xs [] ret is h r = (
    m,
    ap (λ n. ok n m) (omega (arith, matches-none cmp f item [] m.user tt)),
    Purged-none m l xs [] is tt,
  )
  remove_data_loop-run (suc fuel) m {l} xs ((q, j) ∷ ys) ret is h r =
      let at = Links-right m.node_at null xs ((q, j) ∷ ys) null is.links in
      let find =
        list_find_begin-run {m = m} item cmp (suc fuel) (last xs null) ((q, j) ∷ ys) at h in
      elim (split cmp f item ((q, j) ∷ ys) m.user) [
        | inl (miss, k) ↦ (
          m,
          rw (ne→== q null at.0, find, k)
              (loop-null m l fuel ret (omega arith)
                ∙ ap (λ n. ok n m)
                    (omega (arith, matches-none cmp f item ((q, j) ∷ ys) m.user miss))),
          Purged-none m l xs ((q, j) ∷ ys) is miss,
        )
        | inr s ↦
            let is0 = around xs ((q, j) ∷ ys) is s in
            let there =
              Links-right m.node_at null (xs ++ s.before) ((s.p, s.i) ∷ s.after) null is0.links in
            let (m1, run, is1, u, e, same) =
              list_remove_node-refines (xs ++ s.before) s.p s.i s.after is0 f in
            let shorter = length-split cmp f item ((q, j) ∷ ys) m.user s in
            let (m', run', rest) =
              remove_data_loop-run fuel m1 (xs ++ s.before) s.after ((ret + 1) % 2 ^ 32) is1
                (omega arith) (omega arith) in
            (
              m',
              rw
                  (
                    ne→== q null at.0,
                    find,
                    s.found,
                    ne→== s.p null there.0,
                    next-run (xs ++ s.before) s.p s.i s.after is0,
                    run,
                  )
                  (run'
                    ∙ ap (λ n. ok n m')
                        (omega (
                          arith,
                          ap (matches cmp f item s.after) u,
                          matches-split cmp f item ((q, j) ∷ ys) m.user s,
                        ))),
              Purged-Split m m1 m' l xs ((q, j) ∷ ys) s u same rest,
            )
      ]

  -- `list_remove_data`, with more rounds than the list has nodes: the call returns the number of
  -- matching cells modulo 2 ^ 32, the list keeps exactly the other cells in their order, the data of
  -- the matching ones is released from first to last, and all other nodes and lists are as they
  -- were.
  pub list_remove_data-run :
      (fuel : ℕ) {m : Mem D} {l : Ptr} {xs : Cells}
      → IsList m l xs
      → length xs < fuel
      → (m' : Mem D) × (list_remove_data fuel l item cmp f m
          ≡ ok (matches cmp f item xs m.user % 2 ^ 32) m')
        × Purged m m' l [] xs
  unfolding list_remove_data
  list_remove_data-run fuel {m} {xs = xs} is h =
      let (m', run, p) = remove_data_loop-run fuel m [] xs 0 is h (omega arith) in
      (m', rw (list_get_head-ok is) (run ∙ ap (λ n. ok n m') (omega arith)), p)

  -- What `list_remove` leaves behind, with its result.
  pub data Removed (m : Mem D) (l : Ptr) (xs : Cells) : ℕ → Mem D → Type 0 where
    absent : find_cell cmp m.user item xs ≡ null → Removed m l xs 0 m
    present :
        (m' : Mem D) (p i : Ptr)
        → find_cell cmp m.user item xs ≡ p
        → is_equal cmp m.user i item ≡ true
        → IsList m' l (erase cmp f item xs m.user)
        → m'.user ≡ release f i m.user
        → m'.node_at p ≡ none
        → SameOutside m m' l xs
        → Removed m l xs 1 m'

  -- `list_remove`, with more rounds than the list has nodes: either no cell matches, the call
  -- returns 0 and changes nothing, or it returns 1, the list has lost its first matching cell, whose
  -- node is given back and whose data is released, and all other nodes and lists are as they were.
  list_remove-run :
      (fuel : ℕ) {m : Mem D} {l : Ptr} {xs : Cells}
      → IsList m l xs
      → length xs < fuel
      → (r : ℕ) × (m' : Mem D) × (list_remove fuel l item cmp f m ≡ ok r m') × Removed m l xs r m'
  unfolding list_remove
  list_remove-run fuel {m} {l} {xs} is h = elim (split cmp f item xs m.user) [
    | inl (miss, k) ↦ (
      0,
      m,
      rw (list_find-run item cmp fuel is h, k) (list_remove_node-null m f is.ne_null),
      absent k,
    )
    | inr s ↦
        let is0 = around [] xs is s in
        let (m1, run, is1, u, e, same) = list_remove_node-refines s.before s.p s.i s.after is0 f in
        (
          1,
          m1,
          rw (list_find-run item cmp fuel is h, s.found) run,
          present m1 s.p s.i s.found s.hit
              (subst (IsList m1 l) (sym (erase-split cmp f item xs m.user s)) is1) u e
              (subst (λ ys. SameOutside m m1 l ys) (sym s.parts) same),
        )
  ]
