-- ===== src/EventLoop/Timers.antt =====
-- The timers of src/event_loop.c. The timers of a loop are the data of its `timer_list`. A loop
-- takes `fuel`, the number of rounds that it may make, and `clock_gettime` is an argument.
pub mod Sorted
pub mod Insert
pub mod Assign
pub mod Add
pub mod Remove
pub mod Fire
pub mod Fired
use eloop.Base.{
  ℕ, zero, suc, ◌+◌, ◌-◌, ◌^◌, Bool, true, false, not, Option, none, some, ◌==◌, if◌then◌else◌, ltb,
  ℤ, pos, negsuc, minus_one, ltb_ℤ, eqb_ℤ,
}
use eloop.Memory.{Ptr, null, out_of_fuel, pure, ◌>>=◌, ◌>>◌, when}
use eloop.LinkedList.{
  list_length, list_get_data, list_get_head, list_get_next, list_append, list_append_before,
  list_remove_node, list_remove_all,
}
use eloop.World.{
  World, Prog, Timespec, Timer, TimerType, one_shot, forever, load_timer, store_timer, load_loop,
  store_loop,
}
use eloop.EventLoop.Time.{ts_plus, timer_compare}

-- `++` on a `long long`; at its end the counter goes on from its least value.
abbrev pub succ_ℤ : ℤ → ℤ
succ_ℤ (pos n) = if n + 1 == 2 ^ 63 then negsuc (2 ^ 63 - 1) else pos (n + 1)
succ_ℤ (negsuc zero) = pos 0
succ_ℤ (negsuc (suc n)) = negsuc n

-- `if (++eloop->tid <= 0) eloop->tid = 1;`
abbrev pub next_tid : ℤ → ℤ
next_tid tid = if ltb_ℤ (pos 0) (succ_ℤ tid) then succ_ℤ tid else pos 1

abbrev pub timer_list : Ptr → Prog Ptr
timer_list eloop = do lp ← load_loop eloop; pure lp.timer_list

-- The id of the new timer.
unfoldable pub assign_id : (eloop timer : Ptr) → Timer → Prog ℤ
unfolding load_loop store_loop load_timer store_timer
assign_id eloop timer tm =
    if ltb_ℤ tm.id (pos 1)
    then (do
      lp ← load_loop eloop
      store_loop eloop (some (record lp { tid = next_tid lp.tid }))
      t ← load_timer timer
      store_timer timer (some (record t { id = next_tid lp.tid }))
      pure (next_tid lp.tid))
    else pure tm.id

-- The loop of `_timer_add`: the value of `inserted` at its end.
unfoldable pub insert_loop : ℕ → (fresh_node eloop timer node : Ptr) → Prog Bool
insert_loop zero fresh_node eloop timer node = λ _. out_of_fuel
insert_loop (suc fuel) fresh_node eloop timer node = if node == null then pure false else do
  item ← list_get_data node
  t ← load_timer timer
  t' ← load_timer item
  if not (ltb_ℤ (pos 0) (timer_compare t.ts t'.ts))
      then (do l ← timer_list eloop; list_append_before fresh_node l timer node; pure true)
      else (do next ← list_get_next node; insert_loop fuel fresh_node eloop timer next)

-- `_timer_add`; `fresh` and `fresh_node` are the addresses that the two calls of calloc return.
unfoldable pub timer_add : ℕ → (fresh fresh_node eloop : Ptr) → Timer → Prog ℤ
timer_add fuel fresh fresh_node eloop tm = if fresh == null then pure minus_one else do
  store_timer fresh (some tm)
  ret ← assign_id eloop fresh tm
  l ← timer_list eloop
  node ← list_get_head l
  inserted ← insert_loop fuel fresh_node eloop fresh node
  when (not inserted) (do l ← timer_list eloop; list_append fresh_node l fresh; pure tt)
  pure ret

-- `_timer_free`.
abbrev pub timer_free : Ptr → World → World
timer_free p w =
    if p == null then w else record w { timer_at = λ a. if a == p then none else w.timer_at a }

-- The loop of `_timer_remove`.
unfoldable pub timer_remove_loop : ℕ → (eloop node : Ptr) → (id : ℤ) → Prog ℤ
timer_remove_loop zero eloop node id = λ _. out_of_fuel
timer_remove_loop (suc fuel) eloop node id = if node == null then pure minus_one else do
  item ← list_get_data node
  t ← load_timer item
  if eqb_ℤ t.id id
      then (do l ← timer_list eloop; list_remove_node l node (some timer_free); pure (pos 0))
      else (do next ← list_get_next node; timer_remove_loop fuel eloop next id)

unfoldable pub timer_remove : ℕ → (eloop : Ptr) → (id : ℤ) → Prog ℤ
timer_remove fuel eloop id = do
  l ← timer_list eloop
  node ← list_get_head l
  timer_remove_loop fuel eloop node id

unfoldable pub timer_min : (eloop : Ptr) → Prog ℕ
timer_min eloop = do
  l ← timer_list eloop
  n ← list_length l
  if ltb 0 n
      then (do
        l ← timer_list eloop
        node ← list_get_head l
        item ← list_get_data node
        t ← load_timer item
        pure t.interval_ms)
      else pure 4294967295

-- `call` is what a program's timer callbacks do; round k of the loop reads the clock at `clock k`,
-- and adds a timer that repeats at the addresses `fresh k`.
module _ (call : (on_timer eloop : Ptr) → ℤ → (userdata : Ptr) → Prog ℤ) (clock : ℕ → Timespec)
    (fresh : ℕ → Ptr × Ptr) where
  unfoldable pub timer_proc_loop : ℕ → (k : ℕ) → (eloop node : Ptr) → Prog (Unit {0})
  timer_proc_loop zero k eloop node = λ _. out_of_fuel
  timer_proc_loop (suc fuel) k eloop node = if node == null then pure tt else do
    next ← list_get_next node
    timer ← list_get_data node
    t ← load_timer timer
    if ltb_ℤ (timer_compare (clock k) t.ts) (pos 0) then pure tt else do
      call t.on_timer eloop t.id t.userdata
      l ← timer_list eloop
      list_remove_node l node none
      t ← load_timer timer
      elim (t.type) [
        | one_shot ↦ store_timer timer none
        | forever ↦ do
          store_timer timer (some (record t { ts = ts_plus (clock k) t.interval_ms }))
          t ← load_timer timer
          timer_add (suc fuel) ((fresh k).0) ((fresh k).1) eloop t
          store_timer timer none
      ]
      timer_proc_loop fuel (k + 1) eloop next

  unfoldable pub timer_proc : ℕ → (eloop : Ptr) → (is_remove_all : Bool) → Prog (Unit {0})
  timer_proc fuel eloop true = do
    l ← timer_list eloop
    list_remove_all fuel l (some timer_free)
    pure tt
  timer_proc fuel eloop false = do
    l ← timer_list eloop
    node ← list_get_head l
    timer_proc_loop fuel 0 eloop node

-- `now` is what the clock reads. The thread is woken up by a signal that it does not wait for.
unfoldable pub event_loop_add_timer :
    ℕ
    → (fresh fresh_node : Ptr) → (now : Timespec) → (eloop : Ptr) → (interval_ms : ℕ) → TimerType
    → (on_timer userdata : Ptr) → Prog ℤ
event_loop_add_timer fuel fresh fresh_node now eloop interval_ms type on_timer userdata =
    if on_timer == null
    then pure minus_one
    else timer_add fuel fresh fresh_node eloop (record {
      id = minus_one;
      interval_ms = interval_ms;
      type = type;
      on_timer = on_timer;
      userdata = userdata;
      ts = ts_plus now interval_ms;
    })

unfoldable pub event_loop_remove_timer : ℕ → (eloop : Ptr) → (id : ℤ) → Prog ℤ
event_loop_remove_timer = timer_remove
