-- ===== src/LinkedList/AppendAfter.antt =====
-- `list_append_after` of src/common/list.c, and `list_append`, which calls it at the tail.
use eloop.Base.{
  ◌≡◌, ◌≢◌, refl, sym, ◌∙◌, ◌⊎◌, inl, inr, none, some, [], ◌∷◌, ◌++◌, ◌==◌, ne→==, eq→==, ==→eq,
  Bool-cases, append-nil, arith, if◌then◌else◌, pos, minus_one,
}
use eloop.Memory.{Ptr, null, node, Nodes, Mem, ok, write, store_list}
use eloop.LinkedList.{data_2_node, next_of, list_append_after, list_append_before, list_append}
use eloop.LinkedList.Links.{
  Cells, ◌∉◌, first, last, Links, IsList, has-append, ne-first, ne-last, last-append, last-ne,
  null-not-mem, last-node, last-mem, ne_null_of_mem,
}
use eloop.LinkedList.Access.{load_list-ok, list_get_next-ok}
use eloop.LinkedList.Insert
use eloop.LinkedList.Insert.{IsFresh, Inserted, allocated, grown}
use eloop.LinkedList.Updates.{
  put, IsAlive, with_next, with_prev, with_next-ne, with_prev-ne, with_next_self, with_prev_self,
  with_next-none, with_prev-none, frame-next, frame-prev, relink_next, relink_prev, first-IsAlive,
  last-IsAlive, set_next-ok, set_prev-ok, set_next_if-ok, set_prev_if-ok, with_next-IsAlive,
  with_prev-IsAlive,
}

-- The position is the last cell of `xs`; NULL stands for it in an empty list only.
abbrev pub IsPlace : Cells → Cells → Type 0
IsPlace xs ys = (xs ≢ []) ⊎ (ys ≡ [])

head_grown :
    (xs ys : Cells) (fresh item : Ptr)
    → IsPlace xs ys
    → null ∉ xs
    → (if first (xs ++ ys) null == null then fresh else first (xs ++ ys) null)
      ≡ first (xs ++ (fresh, item) ∷ ys) null
head_grown [] ys fresh item (inl e) o = absurd (e refl)
head_grown [] ys fresh item (inr e) o = rw e refl
head_grown ((p, i) ∷ xs) ys fresh item e o = ground arith

tail_grown :
    (xs ys : Cells) (fresh item : Ptr)
    → last xs null ∉ ys
    → (if last (xs ++ ys) null == last xs null then fresh else last (xs ++ ys) null)
      ≡ last (xs ++ (fresh, item) ∷ ys) null
tail_grown xs [] fresh item o =
    rw (append-nil, last-append xs ((fresh, item) ∷ []) null, eq→== (last xs null) _ refl)
tail_grown xs ((p, i) ∷ ys) fresh item o = rw (
  last-append xs ((p, i) ∷ ys) null,
  last-append xs ((fresh, item) ∷ (p, i) ∷ ys) null,
  ne→== _ (last xs null) (last-ne p i ys (last xs null) o),
)

next_of-last :
    {D : Type 0} (m : Mem D) (xs ys : Cells)
    → IsPlace xs ys
    → Links m.node_at null xs (first ys null)
    → next_of (last xs null) m ≡ ok (first ys null) m
unfolding next_of
next_of-last m [] ys (inl e) s = absurd (e refl)
next_of-last m [] ys (inr e) s = rw e refl
next_of-last m ((p, i) ∷ xs) ys e s =
    let (b, j, at) = last-node m.node_at null p i xs (first ys null) s in
    let ne = ne_null_of_mem m.node_at null ((p, i) ∷ xs) _ s (last xs p) (last-mem p i xs null) in
    rw (ne→== (last xs p) null ne, list_get_next-ok m (last xs p) _ ne at)

module _ {D : Type 0} {m : Mem D} {l fresh : Ptr} (item : Ptr) (xs ys : Cells)
    (is : IsList m l (xs ++ ys)) (new : IsFresh m fresh) (place : IsPlace xs ys) where
  -- The nodes after each of the four pointer writes.
  abbrev one : Nodes
  one = with_prev (allocated item xs ys is new) (first ys null) fresh

  abbrev two : Nodes
  two = with_prev one fresh (last xs null)

  abbrev three : Nodes
  three = with_next two fresh (first ys null)

  abbrev four : Nodes
  four = with_next three (last xs null) fresh

  abbrev result : Mem D
  result = record m { node_at = four; list_at = write m.list_at l (some (grown item xs ys is new)) }

  one_self : one fresh ≡ some (node null null item)
  one_self =
      with_prev-ne _ (first ys null) fresh fresh (Insert.fresh-ne-first item xs ys is new)
      ∙ Insert.allocated_self item xs ys is new

  two_self : two fresh ≡ some (node (last xs null) null item)
  two_self = with_prev_self one fresh (last xs null) _ _ _ one_self

  three_self : three fresh ≡ some (node (last xs null) (first ys null) item)
  three_self = with_next_self two fresh (first ys null) _ _ _ two_self

  four_self : four fresh ≡ some (node (last xs null) (first ys null) item)
  four_self =
      with_next-ne three (last xs null) fresh fresh (Insert.fresh-ne-last item xs ys is new)
      ∙ three_self

  Links-xs : Links four null xs fresh
  Links-xs =
      let s0 = Insert.allocated-left item xs ys is new in
      let out = Insert.fresh-not-mem-xs item xs ys is new in
      let s1 =
        frame-prev _ (first ys null) null xs _ s0 (Insert.first-not-mem-xs item xs ys is new)
          fresh in
      let s2 = frame-prev one fresh null xs _ s1 out (last xs null) in
      let s3 = frame-next two fresh null xs _ s2 out (first ys null) in
      relink_next three null null xs (first ys null) fresh s3

  Links-ys : Links four fresh ys null
  Links-ys =
      let s0 = Insert.allocated-right item xs ys is new in
      let out = Insert.fresh-not-mem-ys item xs ys is new in
      let s1 = relink_prev _ null (last xs null) ys null fresh s0 in
      let s2 = frame-prev one fresh fresh ys null s1 out (last xs null) in
      let s3 = frame-next two fresh fresh ys null s2 out (first ys null) in
      frame-next three (last xs null) fresh ys null s3 (Insert.last-not-mem-ys item xs ys is new)
        fresh

  three-null : three null ≡ none
  three-null = with_next-none two _ _ null (
      with_prev-none one _ _ null
        (with_prev-none _ _ _ null (Insert.allocated-null item xs ys is new)))

  result-IsList : IsList result l (xs ++ (fresh, item) ∷ ys)
  result-IsList = record {
    ne_null = is.ne_null;
    unmapped = with_next-none three _ _ null three-null;
    header = ground arith;
    links = Insert.Links-grown item xs ys is new four Links-xs four_self Links-ys;
  }

  four-same : (a : Ptr) → a ≢ fresh → a ∉ xs → a ∉ ys → four a ≡ m.node_at a
  four-same a ne o o' = elim (Bool-cases (a == null)) [
    | inl hit ↦ rw (==→eq a null hit) (with_next-none three _ _ null three-null ∙ sym is.unmapped)
    | inr miss ↦
        let nz : a ≢ null = (λ e. cc (miss, eq→== a null e)) in
        with_next-ne three (last xs null) fresh a (ne-last a xs null nz o)
        ∙ with_next-ne two fresh (first ys null) a ne
        ∙ with_prev-ne one fresh (last xs null) a ne
        ∙ with_prev-ne _ (first ys null) fresh a (ne-first a ys null nz o')
        ∙ ground (arith, ne→== a fresh ne)
  ]

  four-outside : (a : Ptr) → a ∉ ((fresh, item) ∷ xs ++ ys) → four a ≡ m.node_at a
  four-outside a o = ground (arith, has-append a xs ys, four-same a, eq→== a fresh)

  four_end : IsAlive three (last xs null)
  four_end = with_next-IsAlive two _ _ _ (
      with_prev-IsAlive one _ _ _ (
        with_prev-IsAlive _ _ _ _
          (last-IsAlive _ null xs _ (Insert.allocated-left item xs ys is new) (inl refl))))

  list_append_after-run : list_append_after fresh l item (last xs null) m ≡ ok (pos 0) result
  unfolding list_append_after store_list
  list_append_after-run =
      let m0 = put m (allocated item xs ys is new) in
      rw (
        Insert.data_2_node-run item xs ys is new,
        ne→== fresh null new.ne_null,
        next_of-last m0 xs ys place (Insert.allocated-left item xs ys is new),
        set_prev_if-ok m0 (first ys null) fresh (Insert.allocated-null item xs ys is new)
            (first-IsAlive _ _ ys null (Insert.allocated-right item xs ys is new) (inl refl)),
        set_prev-ok (put m one) fresh (last xs null) new.ne_null _ one_self,
        set_next-ok (put m two) fresh (first ys null) new.ne_null _ two_self,
        set_next_if-ok (put m three) (last xs null) fresh three-null four_end,
        load_list-ok (put m four) l _ is.ne_null is.header,
        head_grown xs ys fresh item place
            (null-not-mem m.node_at null xs _ (Insert.left item xs ys is new)),
        tail_grown xs ys fresh item (Insert.last-not-mem-ys item xs ys is new),
        Insert.length-grown item xs ys is new,
      )

  -- `list_append_after` behind the cells `xs`, with memory for a node and a position that is NULL only
  -- for an empty list: the call returns 0, the new cell stands between `xs` and `ys`, and all other
  -- nodes and lists are as they were.
  pub list_append_after-refines :
      (m' : Mem D) × (list_append_after fresh l item (last xs null) m ≡ ok (pos 0) m')
      × Inserted m m' l fresh item xs ys
  list_append_after-refines = (
    result,
    list_append_after-run,
    record {
      list = result-IsList;
      user = refl;
      same = record { nodes = four-outside; lists = λ k ne. ground (arith, ne→== k l ne) };
    },
  )

-- `list_append` with memory for a node: the call returns 0 and the new cell is the last.
pub list_append-refines :
    {D : Type 0} {m : Mem D} {l fresh : Ptr} (item : Ptr) (xs : Cells)
    → IsList m l xs
    → IsFresh m fresh
    → (m' : Mem D) × (list_append fresh l item m ≡ ok (pos 0) m') × Inserted m m' l fresh item xs []
unfolding list_append
list_append-refines {m} {l} item xs is new =
    let is' : IsList m l (xs ++ []) = rw append-nil is in
    rw (load_list-ok m l _ is.ne_null is.header)
      (list_append_after-refines item xs [] is' new (inr refl))

-- When calloc fails, every insertion returns -1 and changes nothing.
pub append_out_of_memory :
    {D : Type 0} (m : Mem D) (l item at : Ptr)
    → (list_append_after null l item at m ≡ ok minus_one m)
      × (list_append_before null l item at m ≡ ok minus_one m)
unfolding list_append_after list_append_before data_2_node
append_out_of_memory m l item at = (refl, refl)
