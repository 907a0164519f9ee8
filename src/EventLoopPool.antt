-- ===== src/EventLoopPool.antt =====
-- src/event_loop_pool.c: a fixed array of event loops, handed out in turn.
pub mod Turns
pub mod Delete
pub mod Create
pub mod Failed
pub mod Loops
mod Tests
use eloop.Base.{
  ℕ, zero, suc, ◌+◌, ◌-◌, ◌%◌, ◌^◌, Bool, none, some, ◌==◌, if◌then◌else◌, ltb, leb, true, false,
  not, pos, eqb_ℤ,
}
use eloop.Memory.{Ptr, null, fault, pure, ◌>>=◌, ◌>>◌, when}
use eloop.World.{Pool, Prog, load_loop, load_pool, store_pool}

abbrev pub max_loop : ℕ
max_loop = 1024

-- The memory that calloc gives.
abbrev pub zeroed_pool : Pool
zeroed_pool = record { number = 0; e_loops = λ _. null; pos = 0 }

abbrev pub set_loop : (ℕ → Ptr) → ℕ → Ptr → ℕ → Ptr
set_loop loops i p j = if j == i then p else loops j

unfoldable pub modify_pool : (Pool → Pool) → (e_pool : Ptr) → Prog (Unit {0})
unfolding load_pool store_pool
modify_pool f e_pool = do pool ← load_pool e_pool; store_pool e_pool (some (f pool))

-- `event_loop_delete(eloop)` where `eloop` is the address of a loop, and not of a pointer to one.
-- What the function then reads as `*eloop` is the first member of the loop, `tid`. If that is 0, the
-- function does nothing; if not, it goes on to use the id of a timer as the address of a loop, which
-- is a fault here.
unfoldable pub event_loop_delete_of_loop : (eloop : Ptr) → Prog (Unit {0})
unfolding load_loop
event_loop_delete_of_loop eloop =
    when (not (eloop == null))
      (do lp ← load_loop eloop; if eqb_ℤ lp.tid (pos 0) then pure tt else λ _. fault)

-- The loop of `event_loop_pool_delete` with `todo` rounds left, from index `i`.
unfoldable pub delete_loop : (todo i : ℕ) → (e_pool : Ptr) → Prog (Unit {0})
unfolding load_pool event_loop_delete_of_loop
delete_loop zero i e_pool = pure tt
delete_loop (suc todo) i e_pool = do
  pool ← load_pool e_pool
  when (not (pool.e_loops i == null)) (event_loop_delete_of_loop (pool.e_loops i))
  delete_loop todo (i + 1) e_pool

-- The caller's pointer comes in and goes out as the result.
unfoldable pub event_loop_pool_delete : Ptr → Prog Ptr
unfolding load_pool store_pool delete_loop
event_loop_pool_delete e_pool = if e_pool == null then pure null else do
  pool ← load_pool e_pool
  delete_loop pool.number 0 e_pool
  store_pool e_pool none
  pure null

-- `event_loop_create i` is what the call for index `i` of the function of that name does.
module _ (event_loop_create : ℕ → Prog Ptr) where
  -- The loop of `event_loop_pool_create` with `todo` rounds left, from index `i`: whether every round
  -- got an event loop.
  unfoldable pub create_loop : (todo i : ℕ) → (e_pool : Ptr) → Prog Bool
  unfolding modify_pool
  create_loop zero i e_pool = pure true
  create_loop (suc todo) i e_pool = do
    e_loop ← event_loop_create i
    modify_pool (λ pool. record pool { e_loops = set_loop pool.e_loops i e_loop }) e_pool
    if e_loop == null then pure false else create_loop todo (i + 1) e_pool

  -- `fresh` is the address that calloc returns, and `mutex` says that the mutex can be set up.
  unfoldable pub event_loop_pool_create : (fresh : Ptr) (mutex : Bool) (number : ℕ) → Prog Ptr
  event_loop_pool_create fresh mutex number =
      let number' = if number == 0 then 8 else number in
      if ltb max_loop number' then pure null else if fresh == null then pure null else (do
        store_pool fresh (some zeroed_pool)
        done ←
            if mutex
            then (do
              modify_pool (λ pool. record pool { number = number'; pos = 0 }) fresh
              create_loop number' 0 fresh)
            else pure false
        if done then pure fresh else (do event_loop_pool_delete fresh; pure null))

unfoldable pub event_loop_pool_next : Pool → Ptr × Pool
event_loop_pool_next pool =
    let pos' = (pool.pos + 1) % 2 ^ 32 in
    (pool.e_loops (pool.pos), record pool { pos = if leb (pool.number) pos' then 0 else pos' })

unfoldable pub event_loop_pool_get_girst : Pool → Ptr
event_loop_pool_get_girst pool = pool.e_loops 0
