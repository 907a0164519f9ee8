-- ===== src/LinkedList/AppendBefore.antt =====
-- `list_append_before` of src/common/list.c.
use eloop.Base.{
  ◌≡◌, ◌≢◌, refl, sym, ◌∙◌, ◌⊎◌, inl, inr, none, some, [], ◌∷◌, ◌++◌, ◌==◌, ne→==, eq→==, ==→eq,
  Bool-cases, arith, if◌then◌else◌, pos,
}
use eloop.Memory.{Ptr, null, node, Nodes, Mem, ok, write, store_list}
use eloop.LinkedList.{prev_of, list_append_before}
use eloop.LinkedList.Links.{
  Cells, ◌∉◌, first, last, Links, IsList, has-append, ne-first, ne-last, last-append, last-ne,
  null-not-mem,
}
use eloop.LinkedList.Access.{load_list-ok, list_get_prev-ok}
use eloop.LinkedList.Insert
use eloop.LinkedList.Insert.{IsFresh, Inserted, allocated, grown}
use eloop.LinkedList.Updates.{
  put, IsAlive, with_next, with_prev, with_next-ne, with_prev-ne, with_next_self, with_prev_self,
  with_next-none, with_prev-none, frame-next, frame-prev, relink_next, relink_prev, first-IsAlive,
  last-IsAlive, set_next-ok, set_prev-ok, set_next_if-ok, set_prev_if-ok, with_next-IsAlive,
  with_prev-IsAlive,
}

-- The position is the first cell of `ys`; NULL stands for it in an empty list only.
abbrev pub IsPlace : Cells → Cells → Type 0
IsPlace xs ys = (ys ≢ []) ⊎ (xs ≡ [])

head_grown :
    (xs ys : Cells) (fresh item : Ptr)
    → first ys null ∉ xs
    → (if first (xs ++ ys) null == first ys null then fresh else first (xs ++ ys) null)
      ≡ first (xs ++ (fresh, item) ∷ ys) null
head_grown [] ys fresh item o = rw (eq→== (first ys null) _ refl)
head_grown ((p, i) ∷ xs) ys fresh item o = ground arith

tail_grown :
    (xs ys : Cells) (fresh item : Ptr)
    → IsPlace xs ys
    → null ∉ ys
    → (if last (xs ++ ys) null == null then fresh else last (xs ++ ys) null)
      ≡ last (xs ++ (fresh, item) ∷ ys) null
tail_grown xs [] fresh item (inl e) o = absurd (e refl)
tail_grown xs [] fresh item (inr e) o = rw e refl
tail_grown xs ((p, i) ∷ ys) fresh item e o = rw (
  last-append xs ((p, i) ∷ ys) null,
  last-append xs ((fresh, item) ∷ (p, i) ∷ ys) null,
  ne→== _ null (last-ne p i ys null o),
)

prev_of-first :
    {D : Type 0} (m : Mem D) (xs ys : Cells)
    → IsPlace xs ys
    → Links m.node_at (last xs null) ys null
    → prev_of (first ys null) m ≡ ok (last xs null) m
unfolding prev_of
prev_of-first m xs [] (inl e) s = absurd (e refl)
prev_of-first m xs [] (inr e) s = rw e refl
prev_of-first m xs ((p, i) ∷ ys) e s = rw (ne→== p null s.0, list_get_prev-ok m p _ s.0 s.1)

module _ {D : Type 0} {m : Mem D} {l fresh : Ptr} (item : Ptr) (xs ys : Cells)
    (is : IsList m l (xs ++ ys)) (new : IsFresh m fresh) (place : IsPlace xs ys) where
  -- The nodes after each of the four pointer writes.
  abbrev one : Nodes
  one = with_next (allocated item xs ys is new) (last xs null) fresh

  abbrev two : Nodes
  two = with_prev one fresh (last xs null)

  abbrev three : Nodes
  three = with_next two fresh (first ys null)

  abbrev four : Nodes
  four = with_prev three (first ys null) fresh

  abbrev result : Mem D
  result = record m { node_at = four; list_at = write m.list_at l (some (grown item xs ys is new)) }

  one_self : one fresh ≡ some (node null null item)
  one_self =
      with_next-ne _ (last xs null) fresh fresh (Insert.fresh-ne-last item xs ys is new)
      ∙ Insert.allocated_self item xs ys is new

  two_self : two fresh ≡ some (node (last xs null) null item)
  two_self = with_prev_self one fresh (last xs null) _ _ _ one_self

  three_self : three fresh ≡ some (node (last xs null) (first ys null) item)
  three_self = with_next_self two fresh (first ys null) _ _ _ two_self

  four_self : four fresh ≡ some (node (last xs null) (first ys null) item)
  four_self =
      with_prev-ne three (first ys null) fresh fresh (Insert.fresh-ne-first item xs ys is new)
      ∙ three_self

  Links-xs : Links four null xs fresh
  Links-xs =
      let s0 = Insert.allocated-left item xs ys is new in
      let out = Insert.fresh-not-mem-xs item xs ys is new in
      let s1 = relink_next _ null null xs (first ys null) fresh s0 in
      let s2 = frame-prev one fresh null xs _ s1 out (last xs null) in
      let s3 = frame-next two fresh null xs _ s2 out (first ys null) in
      frame-prev three (first ys null) null xs _ s3 (Insert.first-not-mem-xs item xs ys is new)
        fresh

  Links-ys : Links four fresh ys null
  Links-ys =
      let s0 = Insert.allocated-right item xs ys is new in
      let out = Insert.fresh-not-mem-ys item xs ys is new in
      let s1 =
        frame-next _ (last xs null) (last xs null) ys null s0
          (Insert.last-not-mem-ys item xs ys is new) fresh in
      let s2 = frame-prev one fresh (last xs null) ys null s1 out (last xs null) in
      let s3 = frame-next two fresh (last xs null) ys null s2 out (first ys null) in
      relink_prev three null (last xs null) ys null fresh s3

  three-null : three null ≡ none
  three-null = with_next-none two _ _ null (
      with_prev-none one _ _ null
        (with_next-none _ _ _ null (Insert.allocated-null item xs ys is new)))

  result-IsList : IsList result l (xs ++ (fresh, item) ∷ ys)
  result-IsList = record {
    ne_null = is.ne_null;
    unmapped = with_prev-none three _ _ null three-null;
    header = ground arith;
    links = Insert.Links-grown item xs ys is new four Links-xs four_self Links-ys;
  }

  four-same : (a : Ptr) → a ≢ fresh → a ∉ xs → a ∉ ys → four a ≡ m.node_at a
  four-same a ne o o' = elim (Bool-cases (a == null)) [
    | inl hit ↦ rw (==→eq a null hit) (with_prev-none three _ _ null three-null ∙ sym is.unmapped)
    | inr miss ↦
        let nz : a ≢ null = (λ e. cc (miss, eq→== a null e)) in
        with_prev-ne three (first ys null) fresh a (ne-first a ys null nz o')
        ∙ with_next-ne two fresh (first ys null) a ne
        ∙ with_prev-ne one fresh (last xs null) a ne
        ∙ with_next-ne _ (last xs null) fresh a (ne-last a xs null nz o)
        ∙ ground (arith, ne→== a fresh ne)
  ]

  four-outside : (a : Ptr) → a ∉ ((fresh, item) ∷ xs ++ ys) → four a ≡ m.node_at a
  four-outside a o = ground (arith, has-append a xs ys, four-same a, eq→== a fresh)

  three_front : IsAlive three (first ys null)
  three_front = with_next-IsAlive two _ _ _ (
      with_prev-IsAlive one _ _ _ (
        with_next-IsAlive _ _ _ _
          (first-IsAlive _ _ ys null (Insert.allocated-right item xs ys is new) (inl refl))))

  list_append_before-run : list_append_before fresh l item (first ys null) m ≡ ok (pos 0) result
  unfolding list_append_before store_list
  list_append_before-run =
      let m0 = put m (allocated item xs ys is new) in
      rw (
        Insert.data_2_node-run item xs ys is new,
        ne→== fresh null new.ne_null,
        prev_of-first m0 xs ys place (Insert.allocated-right item xs ys is new),
        set_next_if-ok m0 (last xs null) fresh (Insert.allocated-null item xs ys is new)
            (last-IsAlive _ null xs _ (Insert.allocated-left item xs ys is new) (inl refl)),
        set_prev-ok (put m one) fresh (last xs null) new.ne_null _ one_self,
        set_next-ok (put m two) fresh (first ys null) new.ne_null _ two_self,
        set_prev_if-ok (put m three) (first ys null) fresh three-null three_front,
        load_list-ok (put m four) l _ is.ne_null is.header,
        head_grown xs ys fresh item (Insert.first-not-mem-xs item xs ys is new),
        tail_grown xs ys fresh item place
            (null-not-mem m.node_at _ ys null (Insert.right item xs ys is new)),
        Insert.length-grown item xs ys is new,
      )

  -- `list_append_before` in front of the cells `ys`, with memory for a node and a position that is NULL
  -- only for an empty list: the call returns 0, the new cell stands between `xs` and `ys`, and all
  -- other nodes and lists are as they were.
  pub list_append_before-refines :
      (m' : Mem D) × (list_append_before fresh l item (first ys null) m ≡ ok (pos 0) m')
      × Inserted m m' l fresh item xs ys
  list_append_before-refines = (
    result,
    list_append_before-run,
    record {
      list = result-IsList;
      user = refl;
      same = record { nodes = four-outside; lists = λ k ne. ground (arith, ne→== k l ne) };
    },
  )
