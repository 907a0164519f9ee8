-- ===== src/EventLoopPool/Create.antt =====
-- `event_loop_pool_create` of src/event_loop_pool.c.
use eloop.Base.{
  ℕ, zero, suc, ◌+◌, ◌<◌, ◌≤◌, ◌≡◌, ◌≢◌, refl, sym, ap, subst, ◌∙◌, inl, inr, Bool-cases, true,
  false, none, some, ◌==◌, ne→==, eq→==, ==→eq, arith,
}
use eloop.Memory.{Ptr, null, ok, write}
use eloop.World.{Pool, World, Memory, Prog, load_pool, store_pool}
use eloop.EventLoopPool.{set_loop, modify_pool, create_loop}
use eloop.EventLoopPool.Delete.{with_pools, Idle}

-- What `event_loop_create` promises for the addresses `made`: a call that gives an address makes a
-- loop there that never had a timer. No call touches the pools or the loops that are there.
pub record IsCreate (event_loop_create : ℕ → Prog Ptr) (made : ℕ → Ptr) : Type 0 where
  pub done :
      (i : ℕ) (m : Memory)
      → made i ≢ null
      → m.user.loop_at (made i) ≡ none
      → (m' : Memory) × (event_loop_create i m ≡ ok (made i) m')
        × (m'.user.pool_at ≡ m.user.pool_at)
        × Idle m'.user (made i)
        × ((a : Ptr) → a ≢ made i → m'.user.loop_at a ≡ m.user.loop_at a)
  pub failed :
      (i : ℕ) (m : Memory)
      → made i ≡ null
      → (m' : Memory) × (event_loop_create i m ≡ ok null m')
        × (m'.user.pool_at ≡ m.user.pool_at)
        × (m'.user.loop_at ≡ m.user.loop_at)

-- The first `n` addresses are those of `n` loops that are not there yet.
pub record AreNew (m : Memory) (made : ℕ → Ptr) (n : ℕ) : Type 0 where
  pub ne_null : (j : ℕ) → j < n → made j ≢ null
  pub unused : (j : ℕ) → j < n → m.user.loop_at (made j) ≡ none
  pub distinct : (i j : ℕ) → i < j → j < n → made j ≢ made i

AreNew-fewer :
    (m : Memory) (made : ℕ → Ptr) (n : ℕ) {k : ℕ} → n ≤ k → AreNew m made k → AreNew m made n
AreNew-fewer m made n le new = record {
  ne_null = λ j a. new.ne_null j (omega arith);
  unused = λ j a. new.unused j (omega arith);
  distinct = λ i j a b. new.distinct i j a (omega arith);
}

-- `m'` is `m` with `n` new loops, of which the pool at `e_pool`, of size `number`, has the addresses.
pub record Built (made : ℕ → Ptr) (e_pool : Ptr) (number n : ℕ) (m m' : Memory) : Type 0 where
  pub pool : Pool
  pub here : m'.user.pool_at e_pool ≡ some pool
  pub size : pool.number ≡ number
  pub start : pool.pos ≡ 0
  pub at : (j : ℕ) → j < n → pool.e_loops j ≡ made j
  pub past : (j : ℕ) → n ≤ j → pool.e_loops j ≡ null
  pub idle : (j : ℕ) → j < n → Idle m'.user (made j)
  pub pools : (a : Ptr) → a ≢ e_pool → m'.user.pool_at a ≡ m.user.pool_at a
  pub loops : (a : Ptr) → ((j : ℕ) → j < n → a ≢ made j) → m'.user.loop_at a ≡ m.user.loop_at a

pub modify_pool-run :
    (f : Pool → Pool) (e_pool : Ptr) (m : Memory) (pool : Pool)
    → e_pool ≢ null
    → m.user.pool_at e_pool ≡ some pool
    → modify_pool f e_pool m ≡ ok tt (with_pools m (write m.user.pool_at e_pool (some (f pool))))
unfolding modify_pool load_pool store_pool
modify_pool-run f e_pool m pool ne e = rw (ne→== e_pool null ne, e) refl

Idle-same : (w w' : World) (a : Ptr) → w'.loop_at a ≡ w.loop_at a → Idle w a → Idle w' a
Idle-same w w' a same (ne, lp, e, tid) = (ne, lp, same ∙ e, tid)

module _ {event_loop_create : ℕ → Prog Ptr} {made : ℕ → Ptr}
    (is_create : IsCreate event_loop_create made) {e_pool : Ptr} (ne : e_pool ≢ null) {number : ℕ}
    {m : Memory} where
  -- A round that gets a loop.
  made_round :
      (n : ℕ) {m1 : Memory}
      → AreNew m made (n + 1)
      → Built made e_pool number n m m1
      → (m2 : Memory) × Built made e_pool number (n + 1) m m2
        × ((todo : ℕ)
            → create_loop event_loop_create (suc todo) n e_pool m1
              ≡ create_loop event_loop_create todo (n + 1) e_pool m2)
  unfolding create_loop
  made_round n {m1} new b =
      let unused =
        b.loops (made n) (λ j a. new.distinct j n a (omega arith)) ∙ new.unused n (omega arith) in
      let (mm, run, pools, idle, others) =
        is_create.done n m1 (new.ne_null n (omega arith)) unused in
      let e : mm.user.pool_at e_pool ≡ some b.pool = ap (λ g. g e_pool) pools ∙ b.here in
      let pool' : Pool = record b.pool { e_loops = set_loop b.pool.e_loops n (made n) } in
      let m2 = with_pools mm (write mm.user.pool_at e_pool (some pool')) in
      (
        m2,
        record {
          pool = pool';
          here = rw (eq→== e_pool e_pool refl) refl;
          size = b.size;
          start = b.start;
          at = λ j a. elim (Bool-cases (j == n)) [
            | inl hit ↦ rw hit (ap made (sym (==→eq j n hit)))
            | inr miss ↦ rw miss (b.at j (ground arith))
          ];
          past = λ j a. rw (ne→== j n (ground arith)) (b.past j (omega arith));
          idle = λ j a. elim (Bool-cases (j == n)) [
            | inl hit ↦ rw (==→eq j n hit) idle
            | inr miss ↦
                let before : j < n = ground arith in
                Idle-same m1.user mm.user (made j)
                  (others (made j) (λ same. new.distinct j n before (omega arith) (sym same)))
                  (b.idle j before)
          ];
          pools = λ a k. rw (ne→== a e_pool k) (ap (λ g. g a) pools ∙ b.pools a k);
          loops = λ a k. others a (k n (omega arith)) ∙ b.loops a (λ j h. k j (omega arith));
        },
        λ todo.
            rw
              (
                run,
                modify_pool-run (λ p. record p { e_loops = set_loop p.e_loops n (made n) }) e_pool
                    mm b.pool ne e,
                ne→== (made n) null (new.ne_null n (omega arith)),
              )
              refl,
      )

  -- A round that gets none.
  missed_round :
      (n todo : ℕ) {m1 : Memory}
      → made n ≡ null
      → Built made e_pool number n m m1
      → (m2 : Memory) × Built made e_pool number n m m2
        × (create_loop event_loop_create (suc todo) n e_pool m1 ≡ ok false m2)
  unfolding create_loop
  missed_round n todo {m1} missing b =
      let (mm, run, pools, same) = is_create.failed n m1 missing in
      let e : mm.user.pool_at e_pool ≡ some b.pool = ap (λ g. g e_pool) pools ∙ b.here in
      let pool' : Pool = record b.pool { e_loops = set_loop b.pool.e_loops n null } in
      let m2 = with_pools mm (write mm.user.pool_at e_pool (some pool')) in
      (
        m2,
        record {
          pool = pool';
          here = rw (eq→== e_pool e_pool refl) refl;
          size = b.size;
          start = b.start;
          at = λ j a. rw (ne→== j n (ground arith)) (b.at j a);
          past = λ j a. elim (Bool-cases (j == n)) [
            | inl hit ↦ rw hit refl
            | inr miss ↦ rw miss (b.past j a)
          ];
          idle = λ j a. Idle-same m1.user mm.user (made j) (ap (λ g. g (made j)) same) (b.idle j a);
          pools = λ a k. rw (ne→== a e_pool k) (ap (λ g. g a) pools ∙ b.pools a k);
          loops = λ a k. ap (λ g. g a) same ∙ b.loops a k;
        },
        rw
            (
              run,
              modify_pool-run (λ p. record p { e_loops = set_loop p.e_loops n null }) e_pool mm
                  b.pool ne e,
            )
            refl,
      )

  -- All rounds get a loop.
  pub create_loop-made :
      (todo n : ℕ) {m1 : Memory}
      → AreNew m made (n + todo)
      → Built made e_pool number n m m1
      → (m2 : Memory) × Built made e_pool number (n + todo) m m2
        × (create_loop event_loop_create todo n e_pool m1 ≡ ok true m2)
  unfolding create_loop
  create_loop-made zero n {m1} new b =
      (m1, subst (λ k. Built made e_pool number k m m1) (omega arith) b, refl)
  create_loop-made (suc todo) n new b =
      let (m2, b2, run) = made_round n (AreNew-fewer m made (n + 1) (omega arith) new) b in
      let new2 = AreNew-fewer m made (n + 1 + todo) (omega arith) new in
      let (m3, b3, run2) = create_loop-made todo (n + 1) new2 b2 in
      (m3, subst (λ k. Built made e_pool number k m m3) (omega arith) b3, run todo ∙ run2)

  -- Round `k` is the first that gets none.
  pub create_loop-failed :
      (todo n k : ℕ) {m1 : Memory}
      → AreNew m made k
      → n ≤ k
      → k < n + todo
      → made k ≡ null
      → Built made e_pool number n m m1
      → (m2 : Memory) × Built made e_pool number k m m2
        × (create_loop event_loop_create todo n e_pool m1 ≡ ok false m2)
  create_loop-failed zero n k new le lt missing b = absurd (omega arith)
  create_loop-failed (suc todo) n k new le lt missing b = elim (Bool-cases (n == k)) [
    | inl hit ↦
        let e = ==→eq n k hit in
        let (m2, b2, run) = missed_round n todo (ap made e ∙ missing) b in
        (m2, subst (λ i. Built made e_pool number i m m2) e b2, run)
    | inr miss ↦
        let (m2, b2, run) = made_round n (AreNew-fewer m made (n + 1) (ground arith) new) b in
        let (m3, b3, run2) =
          create_loop-failed todo (n + 1) k new (ground arith) (omega arith) missing b2 in
        (m3, b3, run todo ∙ run2)
  ]
