-- ===== src/LinkedList/Remove.antt =====
-- `list_remove_node` of src/common/list.c: unlinking one node wherever it stands.
use eloop.Base.{
  ◌-◌, ◌≡◌, refl, sym, ◌∙◌, inl, inr, none, some, [], ◌∷◌, ◌++◌, ◌==◌, ltb, if◌then◌else◌, ne→==,
  eq→==, ==→eq, Bool-cases, length, length-append, append-nil, arith,
}
use eloop.Memory.{Ptr, null, node, handle, Nodes, Mem, ok, write, store_list, act}
use eloop.LinkedList.{FreeData, release, list_remove_node}
use eloop.LinkedList.Access.{
  list_get_prev-ok, list_get_next-ok, list_get_data-ok, free_node-ok, load_list-ok, SameOutside,
}
use eloop.LinkedList.Links.{
  last-ne, Cells, ◌∉◌, first, last, Links, IsList, Disjoint, first-append, last-append,
  null-not-mem, Links-left, Links-right, Links-Disjoint, Links-append, has-append, ne-first,
  ne-last, not-mem_of_mem, first-not-mem, last-not-mem,
}
use eloop.LinkedList.Updates.{
  with_next, with_prev, put, IsAlive, with_next-none, with_prev-none, with_next-ne, with_prev-ne,
  with_next-IsAlive, frame-next, frame-prev, frame-write, relink_next, relink_prev, last-IsAlive,
  first-IsAlive, set_next_if-ok, set_prev_if-ok, writes-ne,
}

head_removed :
    (xs : Cells) (p : Ptr) (ys : Cells)
    → p ∉ xs
    → (if first xs p == p then first ys null else first xs p) ≡ first (xs ++ ys) null
head_removed [] p ys o = ground arith
head_removed ((a, i) ∷ xs) p ys o = ground arith

tail_removed :
    (xs : Cells) (p : Ptr) (ys : Cells)
    → p ∉ ys
    → (if last ys p == p then last xs null else last ys p) ≡ last (xs ++ ys) null
tail_removed xs p [] o = rw (eq→== p p refl, append-nil)
tail_removed xs p ((b, i) ∷ ys) o =
    rw (last-append xs ((b, i) ∷ ys) null, ne→== _ p (last-ne b i ys p o))

length_removed :
    (xs ys : Cells) (c : Ptr × Ptr)
    → let n = length (xs ++ c ∷ ys) in (if ltb 0 n then n - 1 else n) ≡ length (xs ++ ys)
length_removed xs ys c = ground (arith, length-append xs ys, length-append xs (c ∷ ys))

module _ {D : Type 0} {m : Mem D} {l : Ptr} (xs : Cells) (p i : Ptr) (ys : Cells)
    (is : IsList m l (xs ++ (p, i) ∷ ys)) (free_data : FreeData D) where
  left : Links m.node_at null xs p
  left = Links-left m.node_at null xs ((p, i) ∷ ys) null is.links

  right : Links m.node_at (last xs null) ((p, i) ∷ ys) null
  right = Links-right m.node_at null xs ((p, i) ∷ ys) null is.links

  apart : Disjoint xs ((p, i) ∷ ys)
  apart = Links-Disjoint m.node_at null xs ((p, i) ∷ ys) null is.links

  p-not-mem-xs : p ∉ xs
  p-not-mem-xs = not-mem_of_mem p xs ((p, i) ∷ ys) apart (ground arith)

  -- The nodes after the two pointer writes, and the memory after the call.
  abbrev unlinked : Nodes
  unlinked =
      with_prev (with_next m.node_at (last xs null) (first ys null)) (first ys null) (last xs null)

  abbrev pub removed : Mem D
  removed = record {
    node_at = write unlinked p none;
    list_at =
        write m.list_at l
          (some (handle (first (xs ++ ys) null) (last (xs ++ ys) null) (length (xs ++ ys))));
    user = release free_data i m.user;
  }

  abbrev first_write : Nodes
  first_write = with_next m.node_at (last xs null) (first ys null)

  unlinked_self : unlinked p ≡ some (node (last xs null) (first ys null) i)
  unlinked_self =
      with_prev-ne first_write (first ys null) (last xs null) p (ne-first p ys null right.0 right.2)
      ∙ with_next-ne m.node_at (last xs null) (first ys null) p
          (ne-last p xs null right.0 p-not-mem-xs)
      ∙ right.1

  first_write-unmapped : first_write null ≡ none
  first_write-unmapped = with_next-none m.node_at _ _ null is.unmapped

  next-IsAlive : IsAlive first_write (first ys null)
  next-IsAlive =
      with_next-IsAlive m.node_at _ _ _ (first-IsAlive m.node_at p ys null right.3 (inl refl))

  handle-removed :
      let zs = xs ++ (p, i) ∷ ys in
      handle
        (if first zs null == p then first ys null else first zs null)
        (if last zs null == p then last xs null else last zs null)
        (if ltb 0 (length zs) then length zs - 1 else length zs)
      ≡ handle (first (xs ++ ys) null) (last (xs ++ ys) null) (length (xs ++ ys))
  handle-removed =
      rw (first-append xs ((p, i) ∷ ys) null, last-append xs ((p, i) ∷ ys) null)
        (cc (
          head_removed xs p ys p-not-mem-xs,
          tail_removed xs p ys right.2,
          length_removed xs ys (p, i),
        ))

  -- The memory when the header is rewritten, and when the data is released.
  abbrev relinked : Mem D
  relinked = record {
    node_at = unlinked;
    list_at =
        write m.list_at l
          (some (handle (first (xs ++ ys) null) (last (xs ++ ys) null) (length (xs ++ ys))));
    user = m.user;
  }

  -- A node of the list is unlinked, its data released, its memory given back, and 1 returned.
  pub list_remove_node-run : list_remove_node l p free_data m ≡ ok 1 removed
  unfolding list_remove_node store_list act
  list_remove_node-run = rw (
    ne→== l null is.ne_null,
    ne→== p null right.0,
    list_get_prev-ok m p _ right.0 right.1,
    list_get_next-ok m p _ right.0 right.1,
    set_next_if-ok m (last xs null) (first ys null) is.unmapped
        (last-IsAlive m.node_at null xs p left (inl refl)),
    set_prev_if-ok (put m first_write) (first ys null) (last xs null) first_write-unmapped
        next-IsAlive,
    load_list-ok (put m unlinked) l _ is.ne_null is.header,
    handle-removed,
    list_get_data-ok relinked p _ right.0 unlinked_self,
    free_node-ok (record relinked { user = release free_data i m.user }) p _ right.0 unlinked_self,
  )

  Links-xs : Links removed.node_at null xs (first ys null)
  Links-xs =
      let one = relink_next m.node_at null null xs p (first ys null) left in
      let two =
        frame-prev first_write (first ys null) null xs (first ys null) one first-not-mem-xs
          (last xs null) in
      frame-write unlinked p null xs (first ys null) two p-not-mem-xs none
    where
      first-not-mem-xs : first ys null ∉ xs
      first-not-mem-xs =
          first-not-mem null xs ys (null-not-mem m.node_at null xs p left)
            (λ a k. ground (arith, apart a k))

  Links-ys : Links removed.node_at (last xs null) ys null
  Links-ys =
      let one =
        frame-next m.node_at (last xs null) p ys null right.3 last-not-mem-ys (first ys null) in
      let two = relink_prev first_write null p ys null (last xs null) one in
      frame-write unlinked p (last xs null) ys null two right.2 none
    where
      last-not-mem-ys : last xs null ∉ ys
      last-not-mem-ys =
          last-not-mem null xs ys (null-not-mem m.node_at p ys null right.3)
            (λ a k. ground (arith, apart a k))

  -- The list is left with the other cells in their order.
  pub removed-IsList : IsList removed l (xs ++ ys)
  removed-IsList = record {
    ne_null = is.ne_null;
    unmapped = ground (
      arith,
      with_prev-none first_write (first ys null) (last xs null) null first_write-unmapped,
    );
    header = ground arith;
    links =
        Links-append removed.node_at null xs ys null Links-xs Links-ys
          (λ a k. ground (arith, apart a k));
  }

  unlinked-same : (a : Ptr) → a ∉ xs → a ∉ ys → unlinked a ≡ m.node_at a
  unlinked-same a o o' = elim (Bool-cases (a == null)) [
    | inl hit ↦
        rw (==→eq a null hit)
          (with_prev-none first_write _ _ null first_write-unmapped ∙ sym is.unmapped)
    | inr miss ↦
        writes-ne m.node_at a xs ys (last xs null) (first ys null)
          (ne-last a xs null (λ e. cc (miss, eq→== a null e)) o)
          (ne-first a ys null (λ e. cc (miss, eq→== a null e)) o')
  ]

  removed-same : (a : Ptr) → a ∉ (xs ++ (p, i) ∷ ys) → removed.node_at a ≡ m.node_at a
  removed-same a o = ground (arith, has-append a xs ((p, i) ∷ ys), unlinked-same a)

  -- `list_remove_node` at a node of the list: the call returns 1 and leaves the list with the other
  -- cells in their order, the data pointer passed to the free function, the node given back, and
  -- every other node and list as it was.
  pub list_remove_node-refines :
      (m' : Mem D) × (list_remove_node l p free_data m ≡ ok 1 m')
      × IsList m' l (xs ++ ys)
      × (m'.user ≡ release free_data i m.user)
      × (m'.node_at p ≡ none)
      × SameOutside m m' l (xs ++ (p, i) ∷ ys)
  list_remove_node-refines = (
    removed,
    list_remove_node-run,
    removed-IsList,
    refl,
    ground arith,
    record { nodes = removed-same; lists = λ k ne. ground (arith, ne→== k l ne) },
  )
