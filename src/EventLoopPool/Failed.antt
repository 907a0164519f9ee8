-- ===== src/EventLoopPool/Failed.antt =====
-- What `event_loop_pool_create` of src/event_loop_pool.c gives when every loop can be made, and what
-- it leaves behind when one cannot.
use eloop.Base.{
  ℕ, ◌<◌, ◌≤◌, ◌≡◌, ◌≢◌, ◌⊎◌, refl, sym, ap, subst, ◌∙◌, inl, inr, Bool-cases, true, false, none,
  some, ◌==◌, ne→==, eq→==, ==→eq, if◌then◌else◌, ltb, arith,
}
use eloop.Memory.{Ptr, null, ok, write}
use eloop.World.{Pool, Memory, Prog, store_pool}
use eloop.EventLoopPool.{max_loop, zeroed_pool, modify_pool, event_loop_pool_create}
use eloop.EventLoopPool.Turns.{IsPool}
use eloop.EventLoopPool.Delete.{with_pools, Idle, event_loop_pool_delete-Idle}
use eloop.EventLoopPool.Create.{
  IsCreate, AreNew, Built, modify_pool-run, create_loop-made, create_loop-failed,
}

-- The size that a pool gets: 8 for an argument of 0.
abbrev pub size : ℕ → ℕ
size number = if number == 0 then 8 else number

size-bounds : (number : ℕ) → number ≤ max_loop → (0 < size number) × (size number ≤ max_loop)
size-bounds number h = ground arith

fits : (n : ℕ) → n ≤ max_loop → ltb max_loop n ≡ false
fits n h = ground arith

abbrev first_pool : ℕ → Pool
first_pool number = record zeroed_pool { number = size number; pos = 0 }

-- The memory in front of the loop.
abbrev before : Memory → Ptr → ℕ → Memory
before m fresh number =
    let pools = write m.user.pool_at fresh (some zeroed_pool) in
    with_pools m (write pools fresh (some (first_pool number)))

before-run :
    (m : Memory) (fresh : Ptr) (number : ℕ)
    → fresh ≢ null
    → modify_pool
        (λ p. record p { number = size number; pos = 0 })
        fresh
        (with_pools m (write m.user.pool_at fresh (some zeroed_pool)))
      ≡ ok tt (before m fresh number)
before-run m fresh number ne =
    modify_pool-run (λ p. record p { number = size number; pos = 0 }) fresh
      (with_pools m (write m.user.pool_at fresh (some zeroed_pool))) zeroed_pool ne
      (rw (eq→== fresh fresh refl) refl)

module _ {event_loop_create : ℕ → Prog Ptr} {made : ℕ → Ptr}
    (is_create : IsCreate event_loop_create made) {m : Memory} (fresh : Ptr) (ne : fresh ≢ null)
    (unused : m.user.pool_at fresh ≡ none) (number : ℕ) (most : number ≤ max_loop) where
  before-Built : Built made fresh (size number) 0 m (before m fresh number)
  before-Built = record {
    pool = first_pool number;
    here = rw (eq→== fresh fresh refl) refl;
    size = refl;
    start = refl;
    at = λ j a. absurd (omega arith);
    past = λ j a. refl;
    idle = λ j a. absurd (omega arith);
    pools = λ a k. rw (ne→== a fresh k) refl;
    loops = λ a k. refl;
  }

  -- `event_loop_pool_create` for at most 1,024 loops, with memory and a mutex, when every loop can be
  -- made: a pool of all these loops, and its position 0 is that of a loop.
  event_loop_pool_create-made :
      AreNew m made (size number)
      → (m' : Memory) × (pool : Pool) × (event_loop_pool_create event_loop_create fresh true number
            m
          ≡ ok fresh m')
        × (m'.user.pool_at fresh ≡ some pool)
        × (pool.number ≡ size number)
        × IsPool pool
        × ((j : ℕ) → j < size number → pool.e_loops j ≡ made j)
  unfolding event_loop_pool_create store_pool
  event_loop_pool_create-made new =
      let (some_, all) = size-bounds number most in
      let (m', b, run) =
        create_loop-made is_create ne (size number) 0 (subst (AreNew m made) (omega arith) new)
          before-Built in
      (
        m',
        b.pool,
        rw (fits (size number) all, ne→== fresh null ne, before-run m fresh number ne, run) refl,
        b.here,
        b.size,
        record { bounded = rw b.size all; in_range = rw (b.size, b.start) some_ },
        λ j a. b.at j (omega arith),
      )

  -- `event_loop_pool_create` for at most 1,024 loops, with memory and a mutex, when loop `k` is the
  -- first that cannot be made: the result is NULL and the memory of the pool is given back, but none
  -- of the `k` loops made before is deleted, and the other loops and pools are as they were. The loops
  -- made are new ones that never had a timer, as `IsCreate` and `AreNew` say.
  pub event_loop_pool_create-failed :
      (k : ℕ)
      → AreNew m made k
      → made k ≡ null
      → k < size number
      → (m' : Memory) × (event_loop_pool_create event_loop_create fresh true number m ≡ ok null m')
        × ((a : Ptr) → m'.user.pool_at a ≡ m.user.pool_at a)
        × ((j : ℕ) → j < k → Idle m'.user (made j))
        × ((a : Ptr) → ((j : ℕ) → j < k → a ≢ made j) → m'.user.loop_at a ≡ m.user.loop_at a)
  unfolding event_loop_pool_create store_pool
  event_loop_pool_create-failed k new missing below =
      let (some_, all) = size-bounds number most in
      let (m1, b, run) =
        create_loop-failed is_create ne (size number) 0 k new (omega arith) (omega arith) missing
          before-Built in
      let gone = event_loop_pool_delete-Idle m1 fresh b.pool ne b.here (left b) in
      (
        with_pools m1 (write m1.user.pool_at fresh none),
        rw (fits (size number) all, ne→== fresh null ne, before-run m fresh number ne, run, gone)
            refl,
        λ a. elim (Bool-cases (a == fresh)) [
          | inl hit ↦ rw hit (sym (ap m.user.pool_at (==→eq a fresh hit) ∙ unused))
          | inr miss ↦ rw miss (b.pools a (ground arith))
        ],
        b.idle,
        b.loops,
      )
    where
      left :
          {m1 : Memory} (b : Built made fresh (size number) k m m1) (j : ℕ)
          → j < b.pool.number
          → (b.pool.e_loops j ≡ null) ⊎ Idle m1.user (b.pool.e_loops j)
      left {m1} b j h = elim (Bool-cases (ltb j k)) [
        | inl early ↦ inr (rw (b.at j (ground arith)) (b.idle j (ground arith)))
        | inr late ↦ inl (b.past j (ground arith))
      ]
