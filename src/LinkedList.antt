-- ===== src/LinkedList.antt =====
-- The functions of src/common/list.c, command by command, over the memory of `Memory`.
-- `fresh` is the address that calloc returns, NULL when it fails. A loop takes `fuel`, the number
-- of rounds that it may make. A comparison and a free function are callbacks that may be NULL.
pub mod Links
pub mod Updates
pub mod Access
pub mod Remove
pub mod Insert
pub mod Find
pub mod Clear
pub mod Matches
pub mod Purge
pub mod AppendAfter
pub mod AppendBefore
mod Tests
use eloop.Base.{
  ℕ, zero, suc, ◌+◌, ◌-◌, ◌%◌, ◌^◌, Bool, not, Option, none, some, ◌==◌, if◌then◌else◌, ltb, ℤ, pos,
  minus_one, eqb_ℤ,
}
use eloop.Memory.{
  Ptr, null, node, handle, Cmd, out_of_fuel, pure, ◌>>=◌, ◌>>◌, when, load, store, set_next,
  set_prev, free_node, load_list, store_list, act,
}

-- `list_data_cmp`: it may read the data that the two pointers lead to.
abbrev pub DataCmp : Type 0 → Type 0
DataCmp D = Option (D → Ptr → Ptr → ℤ)

-- `list_free_data`.
abbrev pub FreeData : Type 0 → Type 0
FreeData D = Option (Ptr → D → D)

-- The test of one round of the search.
abbrev pub is_equal : {D : Type 0} → DataCmp D → D → Ptr → Ptr → Bool
is_equal none d ndata item = ndata == item
is_equal (some cmp) d ndata item = eqb_ℤ (cmp d ndata item) (pos 0)

-- `if (free_data) free_data(data)`.
abbrev pub release : {D : Type 0} → FreeData D → Ptr → D → D
release none item d = d
release (some f) item d = f item d

module _ {D : Type 0} where
  unfoldable pub data_2_node : (fresh item : Ptr) → Cmd D Ptr
  data_2_node fresh item =
      if fresh == null then pure null else do store fresh (some (node null null item)); pure fresh

  unfoldable pub list_create : (fresh : Ptr) → Cmd D Ptr
  list_create fresh =
      if fresh == null
      then pure null
      else do store_list fresh (some (handle null null 0)); pure fresh

  unfoldable pub list_length : Ptr → Cmd D ℕ
  list_length l = do h ← load_list l; pure h.length

  unfoldable pub list_get_data : Ptr → Cmd D Ptr
  list_get_data p = do n ← load p; pure n.item

  unfoldable pub list_get_head : Ptr → Cmd D Ptr
  list_get_head l = do h ← load_list l; pure h.head

  unfoldable pub list_get_tail : Ptr → Cmd D Ptr
  list_get_tail l = do h ← load_list l; pure h.tail

  unfoldable pub list_get_next : Ptr → Cmd D Ptr
  list_get_next p = do n ← load p; pure n.next

  unfoldable pub list_get_prev : Ptr → Cmd D Ptr
  list_get_prev p = do n ← load p; pure n.prev

  -- The pointer fields that `pos ? pos->prev : NULL` and `pos ? pos->next : NULL` read.
  unfoldable pub prev_of : Ptr → Cmd D Ptr
  prev_of p = if p == null then pure null else list_get_prev p

  unfoldable pub next_of : Ptr → Cmd D Ptr
  next_of p = if p == null then pure null else list_get_next p

  -- `if (p) p->next = q` and `if (p) p->prev = q`.
  unfoldable pub set_next_if : Ptr → Ptr → Cmd D (Unit {0})
  set_next_if p q = when (not (p == null)) (set_next p q)

  unfoldable pub set_prev_if : Ptr → Ptr → Cmd D (Unit {0})
  set_prev_if p q = when (not (p == null)) (set_prev p q)

  -- The counter counts allocated nodes, so it cannot overflow.
  unfoldable pub list_append_before : (fresh l item at : Ptr) → Cmd D ℤ
  list_append_before fresh l item at = do
    n ← data_2_node fresh item
    if n == null then pure minus_one else do
      before ← prev_of at
      set_next_if before n
      set_prev n before
      set_next n at
      set_prev_if at n
      h ← load_list l
      store_list l (
          some (
            handle (if h.head == at then n else h.head) (if h.tail == null then n else h.tail)
              (h.length + 1)))
      pure (pos 0)

  unfoldable pub list_append_after : (fresh l item at : Ptr) → Cmd D ℤ
  list_append_after fresh l item at = do
    n ← data_2_node fresh item
    if n == null then pure minus_one else do
      after ← next_of at
      set_prev_if after n
      set_prev n at
      set_next n after
      set_next_if at n
      h ← load_list l
      store_list l (
          some (
            handle (if h.head == null then n else h.head) (if h.tail == at then n else h.tail)
              (h.length + 1)))
      pure (pos 0)

  unfoldable pub list_append : (fresh l item : Ptr) → Cmd D ℤ
  list_append fresh l item = do h ← load_list l; list_append_after fresh l item h.tail

  unfoldable pub list_find_begin : ℕ → (begin item : Ptr) → DataCmp D → Cmd D Ptr
  list_find_begin zero begin item cmp = λ _. out_of_fuel
  list_find_begin (suc fuel) begin item cmp = if begin == null then pure null else do
    ndata ← list_get_data begin
    λ m.
        (if is_equal cmp m.user ndata item
            then pure begin
            else do next ← list_get_next begin; list_find_begin fuel next item cmp)
          m

  unfoldable pub list_find : ℕ → (l item : Ptr) → DataCmp D → Cmd D Ptr
  list_find fuel l item cmp = do head ← list_get_head l; list_find_begin fuel head item cmp

  unfoldable pub list_is_exist : ℕ → (l item : Ptr) → DataCmp D → Cmd D ℕ
  list_is_exist fuel l item cmp = do
    p ← list_find fuel l item cmp
    pure (if p == null then 0 else 1)

  unfoldable pub list_remove_node : (l p : Ptr) → FreeData D → Cmd D ℕ
  list_remove_node l p free_data = if l == null then pure 0 else if p == null then pure 0 else do
    prev ← list_get_prev p
    next ← list_get_next p
    set_next_if prev next
    set_prev_if next prev
    h ← load_list l
    store_list l (
        some (
          handle (if h.head == p then next else h.head) (if h.tail == p then prev else h.tail)
            (if ltb 0 h.length then h.length - 1 else h.length)))
    item ← list_get_data p
    act (release free_data item)
    free_node p
    pure 1

  unfoldable pub list_remove : ℕ → (l item : Ptr) → DataCmp D → FreeData D → Cmd D ℕ
  list_remove fuel l item cmp free_data = do
    p ← list_find fuel l item cmp
    list_remove_node l p free_data

  unfoldable pub remove_data_loop : ℕ → (l begin item : Ptr) → DataCmp D → FreeData D → ℕ → Cmd D ℕ
  remove_data_loop zero l begin item cmp free_data ret = λ _. out_of_fuel
  remove_data_loop (suc fuel) l begin item cmp free_data ret =
      if begin == null then pure ret else do
        p ← list_find_begin (suc fuel) begin item cmp
        if p == null then remove_data_loop fuel l null item cmp free_data ret else do
          next ← list_get_next p
          list_remove_node l p free_data
          remove_data_loop fuel l next item cmp free_data ((ret + 1) % 2 ^ 32)

  unfoldable pub list_remove_data : ℕ → (l item : Ptr) → DataCmp D → FreeData D → Cmd D ℕ
  list_remove_data fuel l item cmp free_data = do
    head ← list_get_head l
    remove_data_loop fuel l head item cmp free_data 0

  unfoldable pub remove_all_loop : ℕ → (l p : Ptr) → FreeData D → ℕ → Cmd D ℕ
  remove_all_loop zero l p free_data ret = λ _. out_of_fuel
  remove_all_loop (suc fuel) l p free_data ret = if p == null then pure ret else do
    list_remove_node l p free_data
    next ← list_get_head l
    remove_all_loop fuel l next free_data ((ret + 1) % 2 ^ 32)

  unfoldable pub list_remove_all : ℕ → Ptr → FreeData D → Cmd D ℕ
  list_remove_all fuel l free_data = do
    head ← list_get_head l
    remove_all_loop fuel l head free_data 0

  unfoldable pub delete_loop : ℕ → Ptr → FreeData D → Cmd D (Unit {0})
  delete_loop zero l free_data = λ _. out_of_fuel
  delete_loop (suc fuel) l free_data = do
    head ← list_get_head l
    ret ← list_remove_node l head free_data
    if ret == 1 then delete_loop fuel l free_data else pure tt

  -- `*listp` comes in as `l` and goes out as the result.
  unfoldable pub list_delete : ℕ → Ptr → FreeData D → Cmd D Ptr
  list_delete fuel l free_data =
      if l == null then pure null else do delete_loop fuel l free_data; store_list l none; pure null
