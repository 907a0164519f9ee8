-- ===== src/EventLoop/Timers/Fire.antt =====
-- The loop of `_timer_proc` of src/event_loop.c on timers that fire once, with callbacks that leave
-- the timers and the loops alone.
use eloop.Base.{
  ℕ, zero, suc, ◌+◌, ◌<◌, ◌≡◌, ◌≢◌, refl, sym, ap, ◌∙◌, Option, none, some, [], ◌∷◌, ℤ, pos, Bool,
  Bool-cases, inl, inr, true, false, not, ◌==◌, ltb_ℤ, if◌then◌else◌, ne→==, length, arith,
}
use eloop.Memory.{Ptr, null, ok, write}
use eloop.LinkedList.Links.{Cells, first, IsList}
use eloop.LinkedList.Access.{list_get_next-ok, list_get_data-ok}
use eloop.LinkedList.Remove.{list_remove_node-refines}
use eloop.World.{World, Timespec, Timer, one_shot, Loop, Memory, Prog, store_timer}
use eloop.EventLoop.Time.{timer_compare}
use eloop.EventLoop.Timers.{timer_proc_loop}
use eloop.EventLoop.Timers.Insert.{load_loop-ok, load_timer-ok}
use eloop.EventLoop.Timers.Sorted.{AllOf}

-- What a callback does to the world, with its address, the loop, the id and the user data.
abbrev pub Effect : Type 0
Effect = Ptr → Ptr → ℤ → Ptr → World → World

-- A callback neither changes, adds nor removes a timer, nor a loop.
pub record IsQuiet (f : Effect) : Type 0 where
  pub timers : (o e : Ptr) (id : ℤ) (u : Ptr) (w : World) → (f o e id u w).timer_at ≡ w.timer_at
  pub loops : (o e : Ptr) (id : ℤ) (u : Ptr) (w : World) → (f o e id u w).loop_at ≡ w.loop_at

abbrev pub callback : Effect → Ptr → Ptr → ℤ → Ptr → Prog ℤ
callback f o e id u m = ok (pos 0) (record m { user = f o e id u m.user })

-- No timer stands in two cells.
abbrev pub Distinct : Cells → Type 0
Distinct [] = Unit {0}
Distinct ((p, i) ∷ xs) = AllOf (λ j. j ≢ i) xs × Distinct xs

abbrev freed : Ptr → World → World
freed i w = record w { timer_at = write w.timer_at i none }

module _ (timers : Ptr → Option Timer) (clock : ℕ → Timespec) where
  abbrev pub is_due : ℕ → Timer → Bool
  is_due k t = not (ltb_ℤ (timer_compare (clock k) t.ts) (pos 0))

  -- The cells from the first timer on that is not due when it is looked at.
  unfoldable pub waiting : ℕ → Cells → Cells
  waiting k [] = []
  waiting k ((p, i) ∷ xs) =
      let rest = waiting (k + 1) xs in
      elim (timers i) [ none ↦ (p, i) ∷ xs | some t ↦ if is_due k t then rest else (p, i) ∷ xs ]

  -- Each timer before those is called, with what it was given, and then freed, in order.
  unfoldable pub fired : Effect → (eloop : Ptr) → ℕ → Cells → World → World
  fired f eloop k [] w = w
  fired f eloop k ((p, i) ∷ xs) w = elim (timers i) [
    | none ↦ w
    | some t ↦
        let rest = fired f eloop (k + 1) xs (freed i (f t.on_timer eloop t.id t.userdata w)) in
        if is_due k t then rest else w
  ]

  module _ (k : ℕ) (p i : Ptr) (xs : Cells) (t : Timer) (e : timers i ≡ some t) where
    pub waiting-early :
        ltb_ℤ (timer_compare (clock k) t.ts) (pos 0) ≡ true → waiting k ((p, i) ∷ xs) ≡ (p, i) ∷ xs
    unfolding waiting
    waiting-early early = rw (waiting, e, early) refl

    pub waiting-due :
        ltb_ℤ (timer_compare (clock k) t.ts) (pos 0) ≡ false
        → waiting k ((p, i) ∷ xs) ≡ waiting (k + 1) xs
    unfolding waiting
    waiting-due due = rw (waiting, e, due) refl

    fired-early :
        (f : Effect) (eloop : Ptr) (w : World)
        → ltb_ℤ (timer_compare (clock k) t.ts) (pos 0) ≡ true
        → fired f eloop k ((p, i) ∷ xs) w ≡ w
    unfolding fired
    fired-early f eloop w early = rw (fired, e, early) refl

    fired-due :
        (f : Effect) (eloop : Ptr) (w : World)
        → ltb_ℤ (timer_compare (clock k) t.ts) (pos 0) ≡ false
        → fired f eloop k ((p, i) ∷ xs) w
          ≡ fired f eloop (k + 1) xs (freed i (f t.on_timer eloop t.id t.userdata w))
    unfolding fired
    fired-due f eloop w due = rw (fired, e, due) refl

  -- A timer that is still as `timers` has it, and fires once.
  abbrev pub Ready : World → Ptr → Type 0
  Ready w i =
      (i ≢ null)
      × (w.timer_at i ≡ timers i)
      × ((t : Timer) × (timers i ≡ some t) × (t.type ≡ one_shot))

  Ready-kept :
      (w w' : World) (i : Ptr) (xs : Cells)
      → ((a : Ptr) → a ≢ i → w'.timer_at a ≡ w.timer_at a)
      → AllOf (λ j. j ≢ i) xs
      → AllOf (Ready w) xs
      → AllOf (Ready w') xs
  Ready-kept w w' i [] keep d a = tt
  Ready-kept w w' i ((p, j) ∷ xs) keep d a =
      ((a.0.0, keep j d.0 ∙ a.0.1, a.0.2), Ready-kept w w' i xs keep d.1 a.1)

  module _ {f : Effect} (quiet : IsQuiet f) (fresh : ℕ → Ptr × Ptr) {eloop l : Ptr} (lp : Loop)
      (ne : eloop ≢ null) (is_list : lp.timer_list ≡ l) where
    -- What the loop comes to.
    abbrev Fires : ℕ → ℕ → Memory → Cells → Type 0
    Fires fuel k m xs =
        (m' : Memory) × (timer_proc_loop (callback f) clock fresh fuel k eloop (first xs null) m
          ≡ ok tt m')
        × IsList m' l (waiting k xs)
        × (m'.user.loop_at eloop ≡ some lp)
        × AllOf (Ready m'.user) (waiting k xs)
        × (m'.user ≡ fired f eloop k xs m.user)

    pub timer_proc_loop-run :
        (fuel k : ℕ) (m : Memory) (xs : Cells)
        → m.user.loop_at eloop ≡ some lp
        → IsList m l xs
        → AllOf (Ready m.user) xs
        → Distinct xs
        → length xs < fuel
        → Fires fuel k m xs
    unfolding timer_proc_loop store_timer
    timer_proc_loop-run zero k m xs at is a d h = absurd (omega arith)
    timer_proc_loop-run (suc fuel) k m [] at is a d h =
        (m, refl, unfold waiting in is, at, unfold waiting in tt, unfold fired in refl)
    timer_proc_loop-run (suc fuel) k m ((p, i) ∷ xs) at is a d h =
        let (i_ne, same, (t, e, once)) = a.0 in
        elim (Bool-cases (ltb_ℤ (timer_compare (clock k) t.ts) (pos 0))) [
          | inl early ↦ (
            m,
            rw
                (
                  ne→== p null is.links.0,
                  list_get_next-ok m p _ is.links.0 is.links.1,
                  list_get_data-ok m p _ is.links.0 is.links.1,
                  load_timer-ok m i t i_ne (same ∙ e),
                  early,
                )
                refl,
            rw (waiting-early k p i xs t e early) is,
            at,
            rw (waiting-early k p i xs t e early) a,
            sym (fired-early k p i xs t e f eloop m.user early),
          )
          | inr due ↦
              let w = f t.on_timer eloop t.id t.userdata m.user in
              let called : Memory = record m { user = w } in
              let is1 : IsList called l ((p, i) ∷ xs) = record {
                ne_null = is.ne_null;
                unmapped = is.unmapped;
                header = is.header;
                links = is.links;
              } in
              let at1 : w.loop_at eloop ≡ some lp =
                ap (λ g. g eloop) (quiet.loops t.on_timer eloop t.id t.userdata m.user) ∙ at in
              let (m2, run, is2, user, gone, out) = list_remove_node-refines [] p i xs is1 none in
              let there : m2.user.timer_at i ≡ some t =
                ap (λ v. v.timer_at i) user
                ∙ ap (λ g. g i) (quiet.timers t.on_timer eloop t.id t.userdata m.user)
                ∙ same
                ∙ e in
              let m3 : Memory = record m2 { user = freed i m2.user } in
              let is3 : IsList m3 l xs = record {
                ne_null = is2.ne_null;
                unmapped = is2.unmapped;
                header = is2.header;
                links = is2.links;
              } in
              let keep : (b : Ptr) → b ≢ i → m3.user.timer_at b ≡ m.user.timer_at b = (λ b n.
                ap (λ g. if b == i then none else g) (ap (λ v. v.timer_at b) user)
                ∙ rw (ne→== b i n) refl
                ∙ ap (λ g. g b) (quiet.timers t.on_timer eloop t.id t.userdata m.user)) in
              let (m', rest, is', at', ready, user') =
                timer_proc_loop-run fuel (k + 1) m3 xs (ap (λ v. v.loop_at eloop) user ∙ at1) is3
                  (Ready-kept m.user m3.user i xs keep d.0 a.1) d.1 (omega arith) in
              (
                m',
                rw
                    (
                      ne→== p null is.links.0,
                      list_get_next-ok m p _ is.links.0 is.links.1,
                      list_get_data-ok m p _ is.links.0 is.links.1,
                      load_timer-ok m i t i_ne (same ∙ e),
                      due,
                      load_loop-ok called eloop lp ne at1,
                      is_list,
                      run,
                      load_timer-ok m2 i t i_ne there,
                      once,
                    )
                    rest,
                rw (waiting-due k p i xs t e due) is',
                at',
                rw (waiting-due k p i xs t e due) ready,
                user'
                    ∙ ap (λ v. fired f eloop (k + 1) xs (freed i v)) user
                    ∙ sym (fired-due k p i xs t e f eloop m.user due),
              )
        ]
