-- ===== src/LinkedList/Access.antt =====
-- Runs of the accessors of src/common/list.c, and what a call leaves alone.
use eloop.Base.{◌≡◌, ◌≢◌, none, some, ne→==, length}
use eloop.Memory.{Ptr, null, Node, Handle, Mem, ok, write, load, load_list, store, free_node}
use eloop.LinkedList.{
  list_get_prev, list_get_next, list_get_data, list_get_head, list_get_tail, list_length,
}
use eloop.LinkedList.Links.{Cells, ◌∉◌, first, last, IsList}
use eloop.LinkedList.Updates.{put}

module _ {D : Type 0} (m : Mem D) (p : Ptr) (n : Node) (ne : p ≢ null)
    (e : m.node_at p ≡ some n) where
  pub load-ok : load p m ≡ ok n m
  unfolding load
  load-ok = rw (ne→== p null ne, e)

  pub list_get_prev-ok : list_get_prev p m ≡ ok n.prev m
  unfolding list_get_prev
  list_get_prev-ok = rw load-ok

  pub list_get_next-ok : list_get_next p m ≡ ok n.next m
  unfolding list_get_next
  list_get_next-ok = rw load-ok

  pub list_get_data-ok : list_get_data p m ≡ ok n.item m
  unfolding list_get_data
  list_get_data-ok = rw load-ok

  pub free_node-ok : free_node p m ≡ ok tt (put m (write m.node_at p none))
  unfolding free_node store
  free_node-ok = rw load-ok

pub load_list-ok :
    {D : Type 0} (m : Mem D) (l : Ptr) (h : Handle)
    → l ≢ null
    → m.list_at l ≡ some h
    → load_list l m ≡ ok h m
unfolding load_list
load_list-ok m l h ne e = rw (ne→== l null ne, e)

-- The nodes away from `xs` and the lists other than `l` are as they were.
pub record SameOutside {D : Type 0} (m m' : Mem D) (l : Ptr) (xs : Cells) : Type 0 where
  pub nodes : (a : Ptr) → a ∉ xs → m'.node_at a ≡ m.node_at a
  pub lists : (k : Ptr) → k ≢ l → m'.list_at k ≡ m.list_at k

module _ {D : Type 0} {m : Mem D} {l : Ptr} {xs : Cells} (is : IsList m l xs) where
  pub list_get_head-ok : list_get_head l m ≡ ok (first xs null) m
  unfolding list_get_head
  list_get_head-ok = rw (load_list-ok m l _ is.ne_null is.header)

  pub list_get_tail-ok : list_get_tail l m ≡ ok (last xs null) m
  unfolding list_get_tail
  list_get_tail-ok = rw (load_list-ok m l _ is.ne_null is.header)

  pub list_length-ok : list_length l m ≡ ok (length xs) m
  unfolding list_length
  list_length-ok = rw (load_list-ok m l _ is.ne_null is.header)
