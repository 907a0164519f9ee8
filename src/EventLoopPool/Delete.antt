-- ===== src/EventLoopPool/Delete.antt =====
-- `event_loop_pool_delete` of src/event_loop_pool.c.
use eloop.Base.{
  ℕ, zero, suc, ◌+◌, ◌<◌, ◌≤◌, ◌≡◌, ◌≢◌, refl, ◌⊎◌, inl, inr, Option, none, some, not, ◌==◌, ne→==,
  eq→==, pos, arith,
}
use eloop.Memory.{Ptr, null, ok, write, when}
use eloop.World.{Pool, Loop, World, Memory, load_pool, store_pool}
use eloop.EventLoopPool.{event_loop_delete_of_loop, delete_loop, event_loop_pool_delete}

-- The memory with other pools.
abbrev pub with_pools : Memory → (Ptr → Option Pool) → Memory
with_pools m f = record m { user = record (m.user) { pool_at = f } }

-- `eloop` is the address of a loop that no timer was ever added to.
abbrev pub Idle : World → Ptr → Type 0
Idle w eloop = (eloop ≢ null) × (lp : Loop) × (w.loop_at eloop ≡ some lp) × (lp.tid ≡ pos 0)

load_pool-ok :
    (m : Memory) (e_pool : Ptr) (pool : Pool)
    → e_pool ≢ null
    → m.user.pool_at e_pool ≡ some pool
    → load_pool e_pool m ≡ ok pool m
unfolding load_pool
load_pool-ok m e_pool pool ne e = rw (ne→== e_pool null ne, e) refl

of_loop-Idle : (m : Memory) (p : Ptr) → Idle m.user p → event_loop_delete_of_loop p m ≡ ok tt m
unfolding event_loop_delete_of_loop
of_loop-Idle m p (ne, lp, e, tid) = simp (ne→== p null ne, e, tid)

delete_of_loop-Idle :
    (m : Memory) (p : Ptr)
    → (p ≡ null) ⊎ Idle m.user p
    → when (not (p == null)) (event_loop_delete_of_loop p) m ≡ ok tt m
delete_of_loop-Idle m p (inl e) = rw (eq→== p null e) refl
delete_of_loop-Idle m p (inr idle) = rw (ne→== p null idle.0) (of_loop-Idle m p idle)

module _ (m : Memory) (e_pool : Ptr) (pool : Pool) (ne : e_pool ≢ null)
    (e : m.user.pool_at e_pool ≡ some pool) where
  delete_loop-Idle :
      (todo i : ℕ)
      → ((j : ℕ) → i ≤ j → j < i + todo → (pool.e_loops j ≡ null) ⊎ Idle m.user (pool.e_loops j))
      → delete_loop todo i e_pool m ≡ ok tt m
  unfolding delete_loop
  delete_loop-Idle zero i idle = refl
  delete_loop-Idle (suc todo) i idle =
      rw
        (
          load_pool-ok m e_pool pool ne e,
          delete_of_loop-Idle m (pool.e_loops i) (idle i (omega arith) (omega arith)),
        )
        (delete_loop-Idle todo (i + 1) (λ j a b. idle j (omega arith) (omega arith)))

  -- `event_loop_pool_delete` of a pool where no loop ever got a timer: it gives back the memory of the
  -- pool and deletes no loop.
  pub event_loop_pool_delete-Idle :
      ((j : ℕ) → j < pool.number → (pool.e_loops j ≡ null) ⊎ Idle m.user (pool.e_loops j))
      → event_loop_pool_delete e_pool m ≡ ok null (with_pools m (write m.user.pool_at e_pool none))
  unfolding event_loop_pool_delete store_pool
  event_loop_pool_delete-Idle idle =
      rw
        (
          ne→== e_pool null ne,
          load_pool-ok m e_pool pool ne e,
          delete_loop-Idle pool.number 0 (λ j a b. idle j (omega arith)),
        )
        refl
