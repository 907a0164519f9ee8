-- ===== src/EventLoop/Jobs/Add.antt =====
-- `event_loop_add_job` and `_job_add` of src/event_loop.c: the new job is the last.
use eloop.Base.{◌≡◌, ◌≢◌, refl, ap, none, some, [], ◌∷◌, ◌++◌, pos, ne→==, eq→==}
use eloop.Memory.{Ptr, null, ok, write}
use eloop.LinkedList.Links.{Cells, IsList}
use eloop.LinkedList.Insert.{IsFresh}
use eloop.LinkedList.AppendAfter.{list_append-refines}
use eloop.World.{World, Job, Loop, Memory, store_job, load_loop}
use eloop.EventLoop.Jobs.{job_add, event_loop_add_job}

-- The data of each cell is a job.
abbrev pub AllJobs : World → Cells → Type 0
AllJobs w [] = Unit {0}
AllJobs w ((p, i) ∷ xs) = (i ≢ null) × ((j : Job) × (w.job_at i ≡ some j)) × AllJobs w xs

-- `eloop` is a loop whose job list, at `l`, has the cells `xs`.
pub record IsJobs (m : Memory) (eloop l : Ptr) (xs : Cells) : Type 0 where
  pub ne_null : eloop ≢ null
  pub at_loop : (lp : Loop) × (m.user.loop_at eloop ≡ some lp) × (lp.job_list ≡ l)
  pub list : IsList m l xs
  pub jobs : AllJobs m.user xs

abbrev stored : Memory → Ptr → Job → Memory
stored m fresh job = record m {
  user = record (m.user) { job_at = write m.user.job_at fresh (some job) };
}

AllJobs-added :
    (m : Memory) (fresh fresh_node : Ptr) (job : Job) (xs : Cells)
    → fresh ≢ null
    → m.user.job_at fresh ≡ none
    → AllJobs m.user xs
    → AllJobs (stored m fresh job).user (xs ++ (fresh_node, fresh) ∷ [])
AllJobs-added m fresh fresh_node job [] ne unused a =
    (ne, (job, rw (eq→== fresh fresh refl) refl), tt)
AllJobs-added m fresh fresh_node job ((p, i) ∷ xs) ne unused a = (
  a.0,
  (a.1.0, rw (ne→== i fresh (λ e. cc (a.1.1, unused, ap m.user.job_at e))) a.1.1),
  AllJobs-added m fresh fresh_node job xs ne unused a.2,
)

abbrev job_of : (on_job userdata1 userdata2 userdata3 : Ptr) → Job
job_of on_job userdata1 userdata2 userdata3 = record {
  on_job = on_job;
  userdata1 = userdata1;
  userdata2 = userdata2;
  userdata3 = userdata3;
}

module _ {m : Memory} {eloop l : Ptr} {xs : Cells} (on_job u1 u2 u3 : Ptr) (ne : on_job ≢ null)
    (is : IsJobs m eloop l xs) where
  -- `event_loop_add_job` with a callback, and with memory for the job and for its node: it returns 0,
  -- and the new job, with what was given, is the last of the loop. No other job changes.
  event_loop_add_job-last :
      {fresh fresh_node : Ptr}
      → fresh ≢ null
      → m.user.job_at fresh ≡ none
      → IsFresh m fresh_node
      → (m' : Memory) × (event_loop_add_job fresh fresh_node eloop on_job u1 u2 u3 m
          ≡ ok (pos 0) m')
        × IsJobs m' eloop l (xs ++ (fresh_node, fresh) ∷ [])
        × (m'.user.job_at fresh
            ≡ some (record { on_job = on_job; userdata1 = u1; userdata2 = u2; userdata3 = u3 }))
        × ((a : Ptr) → a ≢ fresh → m'.user.job_at a ≡ m.user.job_at a)
  unfolding event_loop_add_job job_add store_job load_loop
  event_loop_add_job-last {fresh} {fresh_node} fresh_ne unused new =
      let job = job_of on_job u1 u2 u3 in
      let begun : IsList (stored m fresh job) l xs = record {
        ne_null = is.list.ne_null;
        unmapped = is.list.unmapped;
        header = is.list.header;
        links = is.list.links;
      } in
      let (m', run, ins) =
        list_append-refines fresh xs begun
          (record { ne_null = new.ne_null; unused = new.unused }) in
      (
        m',
        rw
            (
              ne→== on_job null ne,
              ne→== fresh null fresh_ne,
              ne→== eloop null is.ne_null,
              is.at_loop.1,
              is.at_loop.2,
            )
            (rw run refl),
        record {
          ne_null = is.ne_null;
          at_loop = (is.at_loop.0, rw (ins.user) is.at_loop.1, is.at_loop.2);
          list = ins.list;
          jobs = rw (ins.user) (AllJobs-added m fresh fresh_node job xs fresh_ne unused is.jobs);
        },
        rw (ins.user, eq→== fresh fresh refl) refl,
        λ a k. rw (ins.user, ne→== a fresh k) refl,
      )

-- `event_loop_add_job` with a callback, but without memory for the job: it returns 0 all the same,
-- and nothing changes.
event_loop_add_job-lost :
    (m : Memory) (fresh_node eloop on_job u1 u2 u3 : Ptr)
    → on_job ≢ null
    → event_loop_add_job null fresh_node eloop on_job u1 u2 u3 m ≡ ok (pos 0) m
unfolding event_loop_add_job job_add
event_loop_add_job-lost m fresh_node eloop on_job u1 u2 u3 ne = rw (ne→== on_job null ne) refl
