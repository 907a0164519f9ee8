-- ===== src/EventLoop/Jobs/Run.antt =====
-- `_job_proc` of src/event_loop.c, with callbacks that leave the jobs and the loops alone.
use eloop.Base.{
  ℕ, zero, suc, ◌<◌, ◌≡◌, ◌≢◌, refl, sym, ap, ◌∙◌, Option, none, some, [], ◌∷◌, ℤ, pos, false,
  ne→==, length, arith,
}
use eloop.Memory.{Ptr, null, ok}
use eloop.LinkedList.Links.{Cells, first, IsList}
use eloop.LinkedList.Access.{list_get_head-ok, list_get_next-ok, list_get_data-ok}
use eloop.LinkedList.Remove.{list_remove_node-refines}
use eloop.World.{World, Job, Loop, Memory, Prog, load_job}
use eloop.EventLoop.Jobs.{job_free, job_proc_loop, job_proc}
use eloop.EventLoop.Jobs.Add.{AllJobs, IsJobs}
use eloop.EventLoop.Timers.Insert.{load_loop-ok}
use eloop.EventLoop.Timers.Sorted.{AllOf}

-- No job stands in two cells.
abbrev pub Distinct : Cells → Type 0
Distinct [] = Unit {0}
Distinct ((p, i) ∷ xs) = AllOf (λ j. j ≢ i) xs × Distinct xs

-- What a callback does to the world, with its address, the loop and the three user data.
abbrev pub Effect : Type 0
Effect = Ptr → Ptr → Ptr → Ptr → Ptr → World → World

-- A callback neither adds nor removes a job, nor a loop.
pub record IsQuiet (f : Effect) : Type 0 where
  pub jobs : (o e a b c : Ptr) (w : World) → (f o e a b c w).job_at ≡ w.job_at
  pub loops : (o e a b c : Ptr) (w : World) → (f o e a b c w).loop_at ≡ w.loop_at

abbrev pub callback : Effect → Ptr → Ptr → Ptr → Ptr → Ptr → Prog ℤ
callback f o e a b c m = ok (pos 0) (record m { user = f o e a b c m.user })

-- Each job of `jobs` is called, with what it was given, and then freed, from first to last.
unfoldable pub run_jobs : Effect → (eloop : Ptr) → (jobs : Ptr → Option Job) → Cells → World → World
run_jobs f eloop jobs [] w = w
run_jobs f eloop jobs ((p, i) ∷ xs) w = elim (jobs i) [
  | none ↦ w
  | some j ↦
      run_jobs f eloop jobs xs (job_free i (f j.on_job eloop j.userdata1 j.userdata2 j.userdata3 w))
]

load_job-ok :
    (m : Memory) (i : Ptr) (j : Job) → i ≢ null → m.user.job_at i ≡ some j → load_job i m ≡ ok j m
unfolding load_job
load_job-ok m i j ne e = rw (ne→== i null ne, e)

job_free-others : (i a : Ptr) (w : World) → i ≢ null → a ≢ i → (job_free i w).job_at a ≡ w.job_at a
job_free-others i a w ne ne' = rw (ne→== i null ne, ne→== a i ne') refl

job_free-loops : (i : Ptr) (w : World) → i ≢ null → (job_free i w).loop_at ≡ w.loop_at
job_free-loops i w ne = rw (ne→== i null ne) refl

-- A job that is still as `jobs` has it.
abbrev Ready : (Ptr → Option Job) → World → Ptr → Type 0
Ready jobs w i = (i ≢ null) × (w.job_at i ≡ jobs i) × ((j : Job) × (jobs i ≡ some j))

Ready-kept :
    (jobs : Ptr → Option Job) (w w' : World) (i : Ptr) (xs : Cells)
    → ((a : Ptr) → a ≢ i → w'.job_at a ≡ w.job_at a)
    → AllOf (λ j. j ≢ i) xs
    → AllOf (Ready jobs w) xs
    → AllOf (Ready jobs w') xs
Ready-kept jobs w w' i [] keep d a = tt
Ready-kept jobs w w' i ((p, j) ∷ xs) keep d a =
    ((a.0.0, keep j d.0 ∙ a.0.1, a.0.2), Ready-kept jobs w w' i xs keep d.1 a.1)

run_jobs-cons :
    (f : Effect) (eloop : Ptr) (jobs : Ptr → Option Job) (p i : Ptr) (j : Job) (xs : Cells)
    (w : World)
    → jobs i ≡ some j
    → run_jobs f eloop jobs ((p, i) ∷ xs) w
      ≡ run_jobs f eloop jobs xs
          (job_free i (f j.on_job eloop j.userdata1 j.userdata2 j.userdata3 w))
unfolding run_jobs
run_jobs-cons f eloop jobs p i j xs w e = rw (e, run_jobs) refl

module _ {f : Effect} (quiet : IsQuiet f) {eloop l : Ptr} (jobs : Ptr → Option Job) where
  job_proc_loop-run :
      (fuel : ℕ) (m : Memory) (xs : Cells) (lp : Loop)
      → eloop ≢ null
      → m.user.loop_at eloop ≡ some lp
      → lp.job_list ≡ l
      → IsList m l xs
      → AllOf (Ready jobs m.user) xs
      → Distinct xs
      → length xs < fuel
      → (m' : Memory) × (job_proc_loop (callback f) fuel eloop (first xs null) m ≡ ok (pos 0) m')
        × IsList m' l []
        × (m'.user.loop_at eloop ≡ some lp)
        × (m'.user ≡ run_jobs f eloop jobs xs m.user)
  unfolding job_proc_loop
  job_proc_loop-run zero m xs lp ne at is_list is a d h = absurd (omega arith)
  job_proc_loop-run (suc fuel) m [] lp ne at is_list is a d h =
      (m, refl, is, at, unfold run_jobs in refl)
  job_proc_loop-run (suc fuel) m ((p, i) ∷ xs) lp ne at is_list is a d h =
      let (i_ne, same, (j, e)) = a.0 in
      let w = f j.on_job eloop j.userdata1 j.userdata2 j.userdata3 m.user in
      let called : Memory = record m { user = w } in
      let is1 : IsList called l ((p, i) ∷ xs) = record {
        ne_null = is.ne_null;
        unmapped = is.unmapped;
        header = is.header;
        links = is.links;
      } in
      let at1 : w.loop_at eloop ≡ some lp =
        ap (λ g. g eloop) (quiet.loops j.on_job eloop j.userdata1 j.userdata2 j.userdata3 m.user)
        ∙ at in
      let (m2, run, is2, user, gone, out) =
        list_remove_node-refines [] p i xs is1 (some job_free) in
      let at2 : m2.user.loop_at eloop ≡ some lp =
        ap (λ v. v.loop_at eloop) user ∙ ap (λ g. g eloop) (job_free-loops i w i_ne) ∙ at1 in
      let keep : (a : Ptr) → a ≢ i → m2.user.job_at a ≡ m.user.job_at a = (λ b k.
        ap (λ v. v.job_at b) user
        ∙ job_free-others i b w i_ne k
        ∙ ap (λ g. g b) (quiet.jobs j.on_job eloop j.userdata1 j.userdata2 j.userdata3 m.user)) in
      let (m', rest, is', at', user') =
        job_proc_loop-run fuel m2 xs lp ne at2 is_list is2
          (Ready-kept jobs m.user m2.user i xs keep d.0 a.1) d.1 (omega arith) in
      (
        m',
        rw
            (
              ne→== p null is.links.0,
              list_get_next-ok m p _ is.links.0 is.links.1,
              list_get_data-ok m p _ is.links.0 is.links.1,
              load_job-ok m i j i_ne (same ∙ e),
              load_loop-ok called eloop lp ne at1,
              is_list,
              run,
            )
            rest,
        is',
        at',
        user'
            ∙ ap (run_jobs f eloop jobs xs) user
            ∙ sym (run_jobs-cons f eloop jobs p i j xs m.user e),
      )

AllJobs-Ready : (w : World) (xs : Cells) → AllJobs w xs → AllOf (Ready w.job_at w) xs
AllJobs-Ready w [] a = tt
AllJobs-Ready w ((p, i) ∷ xs) a = ((a.0, refl, a.1), AllJobs-Ready w xs a.2)

-- `_job_proc` of a loop whose jobs are all different, with callbacks that leave the jobs and the
-- loops alone, and more rounds than there are jobs: it returns 0, each job has been called once with
-- what it was given and then freed, in the order of the list, and the list is empty.
pub job_proc-run_jobs :
    {f : Effect} (quiet : IsQuiet f) {m : Memory} {eloop l : Ptr} {xs : Cells} (fuel : ℕ)
    → IsJobs m eloop l xs
    → Distinct xs
    → length xs < fuel
    → (m' : Memory) × (job_proc (callback f) fuel eloop false m ≡ ok (pos 0) m')
      × IsJobs m' eloop l []
      × (m'.user ≡ run_jobs f eloop m.user.job_at xs m.user)
unfolding job_proc
job_proc-run_jobs {f} quiet {m} {eloop} {l} {xs} fuel is d h =
    let (lp, at, is_list) = is.at_loop in
    let (m', run, list, at', user) =
      job_proc_loop-run quiet m.user.job_at fuel m xs lp is.ne_null at is_list is.list
        (AllJobs-Ready m.user xs is.jobs) d h in
    (
      m',
      rw (load_loop-ok m eloop lp is.ne_null at, is_list, list_get_head-ok is.list) run,
      record { ne_null = is.ne_null; at_loop = (lp, at', is_list); list = list; jobs = tt },
      user,
    )
