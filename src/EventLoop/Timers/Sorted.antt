-- ===== src/EventLoop/Timers/Sorted.antt =====
-- The timers of a loop's list, and the order that `_timer_add` of src/event_loop.c keeps them in.
use eloop.Base.{
  ℕ, ◌<◌, ◌≤◌, ◌^◌, ◌≡◌, ◌≢◌, refl, ap, Bool-cases, inl, inr, none, some, [], ◌∷◌, ◌++◌,
  if◌then◌else◌, ltb, true, false, arith,
}
use eloop.Memory.{Ptr, null}
use eloop.LinkedList.Links.{Cells}
use eloop.World.{World, Timer, Memory, Loop}
use eloop.LinkedList.Links.{IsList}
use eloop.EventLoop.Time.Laws.{nanos}

-- `P` holds of the data of every cell.
abbrev pub AllOf : (Ptr → Type 0) → Cells → Type 0
AllOf P [] = Unit {0}
AllOf P ((p, i) ∷ xs) = P i × AllOf P xs

pub AllOf-map :
    {P Q : Ptr → Type 0} → ((i : Ptr) → P i → Q i) → (xs : Cells) → AllOf P xs → AllOf Q xs
AllOf-map f [] a = tt
AllOf-map f ((p, i) ∷ xs) a = (f i a.0, AllOf-map f xs a.1)

-- The time, in nanoseconds, at which the timer at an address fires.
abbrev pub time_at : World → Ptr → ℕ
time_at w i = elim (w.timer_at i) [ none ↦ 0 | some t ↦ nanos (t.ts) ]

pub time_at-some :
    (w : World) (i : Ptr) (t : Timer) → w.timer_at i ≡ some t → time_at w i ≡ nanos (t.ts)
time_at-some w i t e = rw (e, time_at) refl

-- A timer in use, that fires before nanosecond 2 ^ 63.
pub record IsTimer (w : World) (i : Ptr) : Type 0 where
  pub ne_null : i ≢ null
  pub there : (t : Timer) × (w.timer_at i ≡ some t)
  pub small : time_at w i < 2 ^ 63

-- Each timer fires no earlier than those before it.
abbrev pub Sorted : World → Cells → Type 0
Sorted w [] = Unit {0}
Sorted w ((p, i) ∷ xs) = AllOf (λ j. time_at w i ≤ time_at w j) xs × Sorted w xs

-- `eloop` is a loop whose timer list, at `l`, has the cells `xs`.
pub record IsTimers (m : Memory) (eloop l : Ptr) (xs : Cells) : Type 0 where
  pub ne_null : eloop ≢ null
  pub at_loop : (lp : Loop) × (m.user.loop_at eloop ≡ some lp) × (lp.timer_list ≡ l)
  pub list : IsList m l xs
  pub timers : AllOf (IsTimer m.user) xs
  pub sorted : Sorted m.user xs

before-le : (a t b : ℕ) → ltb a t ≡ true → b ≡ t → a ≤ b
before-le a t b h e = ground arith

after-le : (a t b : ℕ) → ltb a t ≡ false → b ≡ t → b ≤ a
after-le a t b h e = ground arith

module _ (w : World) (t : ℕ) where
  -- The cells before the first timer that fires at `t` or later, and the rest.
  abbrev pub earlier : Cells → Cells
  earlier [] = []
  earlier ((p, i) ∷ xs) = if ltb (time_at w i) t then (p, i) ∷ earlier xs else []

  abbrev pub later : Cells → Cells
  later [] = []
  later ((p, i) ∷ xs) = if ltb (time_at w i) t then later xs else (p, i) ∷ xs

  pub earlier-later : (xs : Cells) → earlier xs ++ later xs ≡ xs
  earlier-later [] = refl
  earlier-later ((p, i) ∷ xs) = elim (Bool-cases (ltb (time_at w i) t)) [
    | inl h ↦ rw h (ap (λ ys. (p, i) ∷ ys) (earlier-later xs))
    | inr h ↦ rw h refl
  ]

  pub AllOf-inserted :
      (P : Ptr → Type 0) (n f : Ptr) (xs : Cells)
      → P f
      → AllOf P xs
      → AllOf P (earlier xs ++ (n, f) ∷ later xs)
  AllOf-inserted P n f [] here a = (here, tt)
  AllOf-inserted P n f ((p, i) ∷ xs) here a = elim (Bool-cases (ltb (time_at w i) t)) [
    | inl h ↦ rw h (a.0, AllOf-inserted P n f xs here a.1)
    | inr h ↦ rw h (here, a)
  ]

  pub Sorted-inserted :
      (n f : Ptr) (xs : Cells)
      → time_at w f ≡ t
      → Sorted w xs
      → Sorted w (earlier xs ++ (n, f) ∷ later xs)
  Sorted-inserted n f [] e s = (tt, tt)
  Sorted-inserted n f ((p, i) ∷ xs) e s = elim (Bool-cases (ltb (time_at w i) t)) [
    | inl h ↦ rw h (
      AllOf-inserted (λ j. time_at w i ≤ time_at w j) n f xs (before-le _ _ _ h e) s.0,
      Sorted-inserted n f xs e s.1,
    )
    | inr h ↦
        rw h
          ((after-le _ _ _ h e, AllOf-map (λ j k. omega (arith, k, after-le _ _ _ h e)) xs s.0), s)
  ]

-- The order depends on the times alone.
pub Sorted-same :
    (w w' : World) (xs : Cells)
    → AllOf (λ i. time_at w' i ≡ time_at w i) xs
    → Sorted w xs
    → Sorted w' xs
Sorted-same w w' [] a s = tt
Sorted-same w w' ((p, i) ∷ xs) a s =
    (below (time_at w i) (time_at w' i) xs a.0 a.1 s.0, Sorted-same w w' xs a.1 s.1)
  where
    below :
        (u v : ℕ) (ys : Cells)
        → v ≡ u
        → AllOf (λ j. time_at w' j ≡ time_at w j) ys
        → AllOf (λ j. u ≤ time_at w j) ys
        → AllOf (λ j. v ≤ time_at w' j) ys
    below u v [] e b c = tt
    below u v ((q, j) ∷ ys) e b c = (omega (arith, e, b.0, c.0), below u v ys e b.1 c.1)

module _ (w w' : World) (t : ℕ) where
  pub earlier-same :
      (xs : Cells) → AllOf (λ i. time_at w' i ≡ time_at w i) xs → earlier w' t xs ≡ earlier w t xs
  earlier-same [] a = refl
  earlier-same ((p, i) ∷ xs) a = rw (a.0, earlier-same xs a.1) refl

  pub later-same :
      (xs : Cells) → AllOf (λ i. time_at w' i ≡ time_at w i) xs → later w' t xs ≡ later w t xs
  later-same [] a = refl
  later-same ((p, i) ∷ xs) a = rw (a.0, later-same xs a.1) refl
