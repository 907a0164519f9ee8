-- ===== src/EventLoopPool/Turns.antt =====
-- What src/event_loop_pool.c promises: a pool of the loops that were made, each in its turn.
use native.Mathlib.Nat.{mod-lt, mod-add-mod, mod-eq_of_lt, mod_self}
use eloop.Base.{
  ℕ, zero, suc, ◌+◌, ◌%◌, ◌^◌, ◌<◌, ◌≤◌, ◌≡◌, refl, sym, ap, ◌∙◌, Bool-cases, inl, inr,
  if◌then◌else◌, leb, arith,
}
use eloop.World.{Pool}
use eloop.EventLoopPool.{max_loop, event_loop_pool_next}

-- The position is that of a loop.
pub record IsPool (pool : Pool) : Type 0 where
  pub bounded : pool.number ≤ max_loop
  pub in_range : pool.pos < pool.number

-- The pool after `n` calls of `event_loop_pool_next`.
abbrev pub after : ℕ → Pool → Pool
after zero pool = pool
after (suc n) pool = after n (event_loop_pool_next pool).1

next_pos :
    (pos number : ℕ)
    → number ≤ max_loop
    → pos < number
    → (if leb number ((pos + 1) % 2 ^ 32) then 0 else (pos + 1) % 2 ^ 32) ≡ (pos + 1) % number
next_pos pos number b h = elim (Bool-cases (leb number (pos + 1))) [
  | inl t ↦ let e : pos + 1 ≡ number = ground arith in rw (e, mod_self number) (ground arith)
  | inr t ↦ rw (mod-eq_of_lt {n = pos + 1} {m = number} (ground arith)) (ground arith)
]

mod-below : (pos number : ℕ) → pos < number → (pos + 1) % number < number
mod-below pos number h = mod-lt (pos + 1) (omega arith)

pub next-IsPool :
    (pool : Pool)
    → IsPool pool
    → IsPool (event_loop_pool_next pool).1
      × ((event_loop_pool_next pool).1.pos ≡ (pool.pos + 1) % pool.number)
      × ((event_loop_pool_next pool).1.number ≡ pool.number)
      × ((event_loop_pool_next pool).1.e_loops ≡ pool.e_loops)
unfolding event_loop_pool_next
next-IsPool pool is =
    let e = next_pos (pool.pos) (pool.number) is.bounded is.in_range in
    (
      record {
        bounded = is.bounded;
        in_range = rw e (mod-below (pool.pos) (pool.number) is.in_range);
      },
      e,
      refl,
      refl,
    )

next-loop : (pool : Pool) → (event_loop_pool_next pool).0 ≡ pool.e_loops (pool.pos)
unfolding event_loop_pool_next
next-loop pool = refl

-- `event_loop_pool_next` on a pool whose position is that of a loop, after `n` other calls: it
-- returns the loop `n` places after the position, where the places go round the pool.
pub event_loop_pool_next-turn :
    (n : ℕ) (pool : Pool)
    → IsPool pool
    → (event_loop_pool_next (after n pool)).0 ≡ pool.e_loops ((pool.pos + n) % pool.number)
event_loop_pool_next-turn zero pool is =
    next-loop pool
    ∙ ap (pool.e_loops) (sym (mod-eq_of_lt {n = pool.pos} {m = pool.number} is.in_range))
    ∙ ap (λ k. pool.e_loops (k % pool.number)) (omega arith)
event_loop_pool_next-turn (suc n) pool is =
    let (is', pos', number', loops') = next-IsPool pool is in
    event_loop_pool_next-turn n (event_loop_pool_next pool).1 is'
    ∙ rw (loops', number', pos', mod-add-mod (pool.pos + 1) (pool.number) n)
        (ap (λ k. pool.e_loops (k % pool.number)) (omega arith))
