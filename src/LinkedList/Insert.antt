-- ===== src/LinkedList/Insert.antt =====
-- What the two insertions of src/common/list.c share: a split list and an unused address.
use eloop.Base.{◌+◌, ◌≡◌, ◌≢◌, none, some, ◌∷◌, ◌++◌, ne→==, length, length-append, arith}
use eloop.Memory.{Ptr, null, node, Handle, handle, Nodes, Mem, ok, write, store}
use eloop.LinkedList.{data_2_node}
use eloop.LinkedList.Links.{
  Cells, ◌∉◌, first, last, Links, IsList, Disjoint, null-not-mem, mem-ne-none, ne-first, ne-last,
  Links-left, Links-right, Links-Disjoint, first-not-mem, last-not-mem, Links-append,
}
use eloop.LinkedList.Access.{SameOutside}
use eloop.LinkedList.Updates.{put, frame-write}

-- An address that calloc may return: not NULL, and not in use.
pub record IsFresh {D : Type 0} (m : Mem D) (fresh : Ptr) : Type 0 where
  pub ne_null : fresh ≢ null
  pub unused : m.node_at fresh ≡ none

module _ {D : Type 0} {m : Mem D} {l fresh : Ptr} (item : Ptr) (xs ys : Cells)
    (is : IsList m l (xs ++ ys)) (new : IsFresh m fresh) where
  pub left : Links m.node_at null xs (first ys null)
  left = Links-left m.node_at null xs ys null is.links

  pub right : Links m.node_at (last xs null) ys null
  right = Links-right m.node_at null xs ys null is.links

  pub apart : Disjoint xs ys
  apart = Links-Disjoint m.node_at null xs ys null is.links

  pub fresh-not-mem-xs : fresh ∉ xs
  fresh-not-mem-xs = mem-ne-none m.node_at fresh null xs (first ys null) left new.unused

  pub fresh-not-mem-ys : fresh ∉ ys
  fresh-not-mem-ys = mem-ne-none m.node_at fresh (last xs null) ys null right new.unused

  pub first-not-mem-xs : first ys null ∉ xs
  first-not-mem-xs = first-not-mem null xs ys (null-not-mem m.node_at null xs _ left) apart

  pub last-not-mem-ys : last xs null ∉ ys
  last-not-mem-ys = last-not-mem null xs ys (null-not-mem m.node_at _ ys null right) apart

  pub fresh-ne-first : fresh ≢ first ys null
  fresh-ne-first = ne-first fresh ys null new.ne_null fresh-not-mem-ys

  pub fresh-ne-last : fresh ≢ last xs null
  fresh-ne-last = ne-last fresh xs null new.ne_null fresh-not-mem-xs

  -- The nodes with the new one, before it is linked in.
  abbrev pub allocated : Nodes
  allocated = write m.node_at fresh (some (node null null item))

  pub allocated_self : allocated fresh ≡ some (node null null item)
  allocated_self = ground arith

  pub allocated-null : allocated null ≡ none
  allocated-null = ground (arith, new.ne_null, is.unmapped)

  pub allocated-left : Links allocated null xs (first ys null)
  allocated-left = frame-write m.node_at fresh null xs (first ys null) left fresh-not-mem-xs _

  pub allocated-right : Links allocated (last xs null) ys null
  allocated-right = frame-write m.node_at fresh (last xs null) ys null right fresh-not-mem-ys _

  pub data_2_node-run : data_2_node fresh item m ≡ ok fresh (put m allocated)
  unfolding data_2_node store
  data_2_node-run = rw (ne→== fresh null new.ne_null)

  -- The header that both insertions leave behind.
  abbrev pub grown : Handle
  grown =
      handle (first (xs ++ (fresh, item) ∷ ys) null) (last (xs ++ (fresh, item) ∷ ys) null)
        (length (xs ++ (fresh, item) ∷ ys))

  pub length-grown : length (xs ++ ys) + 1 ≡ length (xs ++ (fresh, item) ∷ ys)
  length-grown = omega (arith, length-append xs ys, length-append xs ((fresh, item) ∷ ys))

  -- The new node, linked to both sides, makes the longer segment.
  pub Links-grown :
      (g : Nodes)
      → Links g null xs fresh
      → g fresh ≡ some (node (last xs null) (first ys null) item)
      → Links g fresh ys null
      → Links g null (xs ++ (fresh, item) ∷ ys) null
  Links-grown g s e t =
      Links-append g null xs ((fresh, item) ∷ ys) null s (new.ne_null, e, fresh-not-mem-ys, t)
        (λ a k. ground (arith, apart a k, fresh-not-mem-xs))

-- What both insertions promise of the memory `m'` that they leave.
pub record Inserted {D : Type 0} (m m' : Mem D) (l fresh item : Ptr) (xs ys : Cells) : Type 0 where
  pub list : IsList m' l (xs ++ (fresh, item) ∷ ys)
  pub user : m'.user ≡ m.user
  pub same : SameOutside m m' l ((fresh, item) ∷ xs ++ ys)
