-- ===== src/EventLoop/Jobs.antt =====
-- The jobs of src/event_loop.c: the data of the loop's `job_list`, each called once and in order.
pub mod Add
pub mod Run
use eloop.Base.{
  ℕ, zero, suc, Bool, true, false, none, some, ◌==◌, if◌then◌else◌, not, ℤ, pos, minus_one,
}
use eloop.Memory.{Ptr, null, out_of_fuel, pure, ◌>>=◌, ◌>>◌, when}
use eloop.LinkedList.{
  list_get_data, list_get_head, list_get_next, list_append, list_remove_node, list_remove_all,
}
use eloop.World.{World, Prog, Job, load_job, store_job, load_loop}

abbrev pub job_list : Ptr → Prog Ptr
job_list eloop = do lp ← load_loop eloop; pure lp.job_list

-- `_job_free`.
abbrev pub job_free : Ptr → World → World
job_free p w =
    if p == null then w else record w { job_at = λ a. if a == p then none else w.job_at a }

-- `_job_add`; `fresh` and `fresh_node` are the addresses that the two calls of calloc return. The
-- last line of the function tests the argument `job`, which is not NULL.
unfoldable pub job_add : (fresh fresh_node eloop : Ptr) → Job → Prog ℤ
job_add fresh fresh_node eloop job = do
  when (not (fresh == null))
      (do store_job fresh (some job); l ← job_list eloop; list_append fresh_node l fresh; pure tt)
  pure (pos 0)

-- `call` is what a program's job callbacks do.
module _ (call : (on_job eloop userdata1 userdata2 userdata3 : Ptr) → Prog ℤ) where
  unfoldable pub job_proc_loop : ℕ → (eloop node : Ptr) → Prog ℤ
  job_proc_loop zero eloop node = λ _. out_of_fuel
  job_proc_loop (suc fuel) eloop node = if node == null then pure (pos 0) else do
    next ← list_get_next node
    job ← list_get_data node
    j ← load_job job
    call j.on_job eloop j.userdata1 j.userdata2 j.userdata3
    l ← job_list eloop
    list_remove_node l node (some job_free)
    job_proc_loop fuel eloop next

  unfoldable pub job_proc : ℕ → (eloop : Ptr) → (is_remove_all : Bool) → Prog ℤ
  job_proc fuel eloop true = do
    l ← job_list eloop
    list_remove_all fuel l (some job_free)
    pure (pos 0)
  job_proc fuel eloop false = do
    l ← job_list eloop
    node ← list_get_head l
    job_proc_loop fuel eloop node

unfoldable pub event_loop_add_job :
    (fresh fresh_node eloop on_job userdata1 userdata2 userdata3 : Ptr) → Prog ℤ
event_loop_add_job fresh fresh_node eloop on_job userdata1 userdata2 userdata3 =
    if on_job == null
    then pure minus_one
    else job_add fresh fresh_node eloop (record {
      on_job = on_job;
      userdata1 = userdata1;
      userdata2 = userdata2;
      userdata3 = userdata3;
    })
