-- ===== src/EventLoop/Thread/Stop.antt =====
-- `_thread_func` of src/event_loop.c when the loop has been told to stop.
use eloop.Base.{
  arith, Option, none, Bool-cases, inl, inr, ◌==◌, ◌||◌, eq→==, ℕ, suc, ◌<◌, ◌≡◌, ◌≢◌, refl, sym,
  ap, ◌∙◌, Bool, true, some, [], ◌∷◌, ℤ, length,
}
use eloop.Memory.{Ptr, null, ok}
use eloop.LinkedList.Links.{Cells, Links, IsList, Disjoint, ◌∈◌, ◌∉◌}
use eloop.LinkedList.Access.{SameOutside}
use eloop.LinkedList.Clear.{release_all, list_remove_all-run}
use eloop.World.{World, Timer, Timespec, Memory, Prog}
use eloop.EventIo.{EventIo}
use eloop.EventLoop.Timers.{timer_proc, timer_free}
use eloop.EventLoop.Timers.Insert.{load_loop-ok}
use eloop.EventLoop.Timers.Sorted.{IsTimers}
use eloop.EventLoop.Jobs.{job_proc, job_free}
use eloop.EventLoop.Jobs.Add.{IsJobs}
use eloop.EventLoop.Thread.{thread_loop, thread_func}

or_true : (b : Bool) → (b || true) ≡ true
or_true b = ground arith

-- A list away from the nodes and the header that change.
module _ {m m' : Memory} {l : Ptr} {xs : Cells} (same : SameOutside m m' l xs) where
  frame-Links :
      (before : Ptr) (ys : Cells)
      → ((a : Ptr) → a ∈ ys → a ∉ xs)
      → Links m.node_at before ys null
      → Links m'.node_at before ys null
  frame-Links before [] out s = tt
  frame-Links before ((p, i) ∷ ys) out s = (
    s.0,
    same.nodes p (out p (rw (eq→== p p refl) refl)) ∙ s.1,
    s.2,
    frame-Links p ys (λ a h. out a (rw (h, or_true (a == p)) refl)) s.3,
  )

  frame-IsList :
      {k : Ptr} {ys : Cells}
      → k ≢ l
      → Disjoint ys xs
      → m'.node_at null ≡ none
      → IsList m k ys
      → IsList m' k ys
  frame-IsList {k} {ys} ne out unmapped is = record {
    ne_null = is.ne_null;
    unmapped = unmapped;
    header = same.lists k ne ∙ is.header;
    links = frame-Links null ys out is.links;
  }

-- What a free function leaves alone, freeing all cells leaves alone.
release_all-keeps :
    {A : Type 0} (f : Ptr → World → World) (field : World → A)
    → ((i : Ptr) (w : World) → field (f i w) ≡ field w)
    → (xs : Cells) (w : World) → field (release_all (some f) xs w) ≡ field w
unfolding release_all
release_all-keeps f field keeps [] w = refl
release_all-keeps f field keeps ((p, i) ∷ xs) w =
    release_all-keeps f field keeps xs (f i w) ∙ keeps i w

timer_free-keeps :
    {A : Type 0} (field : World → A)
    → ((w : World) (g : Ptr → Option Timer) → field (record w { timer_at = g }) ≡ field w)
    → (i : Ptr) (w : World) → field (timer_free i w) ≡ field w
timer_free-keeps field keeps i w = elim (Bool-cases (i == null)) [
  | inl z ↦ rw z refl
  | inr z ↦ rw z (keeps w _)
]

job_free-loops : (i : Ptr) (w : World) → (job_free i w).loop_at ≡ w.loop_at
job_free-loops i w = elim (Bool-cases (i == null)) [ inl z ↦ rw z refl | inr z ↦ rw z refl ]

module _ (io : EventIo) (on_timer : Ptr → Ptr → ℤ → Ptr → Prog ℤ)
    (on_job : Ptr → Ptr → Ptr → Ptr → Ptr → Prog ℤ) (clock : ℕ → ℕ → Timespec)
    (fresh : ℕ → ℕ → Ptr × Ptr) (abort : ℕ → Bool) (fuel : ℕ) where
  -- `_thread_func` of a loop that has been told to stop before its first round, whose timers and jobs
  -- are in two lists with no node in common, with more rounds than either has nodes: it ends with
  -- both lists empty, every timer and every job has been given back, from first to last, and no
  -- callback has been called.
  pub thread_func-stopped :
      (rounds : ℕ) {m : Memory} {eloop l l' : Ptr} {xs ys : Cells}
      → abort 0 ≡ true
      → IsTimers m eloop l xs
      → IsJobs m eloop l' ys
      → l' ≢ l
      → Disjoint ys xs
      → length xs < fuel
      → length ys < fuel
      → (m' : Memory) × (thread_func io on_timer on_job clock fresh abort fuel (suc rounds) eloop m
          ≡ ok null m')
        × IsTimers m' eloop l []
        × IsJobs m' eloop l' []
        × (m'.user ≡ release_all (some job_free) ys (release_all (some timer_free) xs m.user))
  unfolding thread_func thread_loop timer_proc job_proc
  thread_func-stopped rounds {m} {eloop} {l} {l'} {xs} {ys} stop ts js ne out h h' =
      let (lp, at, is_l) = ts.at_loop in
      let (lp2, at2, is_l') = js.at_loop in
      let (m1, run1, is1, em1) = list_remove_all-run (some timer_free) fuel ts.list h in
      let freed = release_all (some timer_free) xs m.user in
      let loops : freed.loop_at ≡ m.user.loop_at =
        release_all-keeps timer_free (λ w. w.loop_at)
          (timer_free-keeps (λ w. w.loop_at) (λ w g. refl)) xs m.user in
      let loops1 : m1.user.loop_at ≡ m.user.loop_at = ap (λ w. w.loop_at) em1.user ∙ loops in
      let js1 = frame-IsList em1.same ne out is1.unmapped js.list in
      let (m2, run2, is2, em2) = list_remove_all-run (some job_free) fuel js1 h' in
      let loops2 : m2.user.loop_at ≡ m.user.loop_at =
        ap (λ w. w.loop_at) em2.user
        ∙ release_all-keeps job_free (λ w. w.loop_at) job_free-loops ys m1.user
        ∙ loops1 in
      (
        m2,
        rw
            (
              stop,
              load_loop-ok m eloop lp ts.ne_null at,
              is_l,
              run1,
              load_loop-ok m1 eloop lp2 ts.ne_null (ap (λ g. g eloop) loops1 ∙ at2),
              is_l',
              run2,
            )
            refl,
        record {
          ne_null = ts.ne_null;
          at_loop = (lp, ap (λ g. g eloop) loops2 ∙ at, is_l);
          list =
              frame-IsList em2.same (λ e. ne (sym e)) (λ a none_in. absurd (cc none_in))
                is2.unmapped is1;
          timers = tt;
          sorted = tt;
        },
        record {
          ne_null = js.ne_null;
          at_loop = (lp2, ap (λ g. g eloop) loops2 ∙ at2, is_l');
          list = is2;
          jobs = tt;
        },
        em2.user ∙ ap (release_all (some job_free) ys) em1.user,
      )
