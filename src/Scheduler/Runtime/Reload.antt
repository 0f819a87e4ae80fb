-- ===== src/Scheduler/Runtime/Reload.antt =====
-- After a reload only jobs that were registered have a next run time.
use stock_center.Base.{
  ℕ, ◌≡◌, refl, sym, Bool, true, false, Option, none, some, List, [], ◌∷◌, ◌++◌, arith, inl, inr,
  ◌⊎◌, String, str_eq, eq_iff, All, any,
}
use stock_center.Scheduler.Store.{
  SchedulerJob, update_where, job_is, clear_all_next_run_at, update_job_runtime,
  list_enabled_cron_jobs,
}
use stock_center.Scheduler.Store.Rows.{All-update_where}
use stock_center.Scheduler.Runtime.{
  RegisteredJob, SchedulerRuntime, Reloading, register_jobs, reload,
}

abbrev pub registered_as : String → RegisteredJob → Bool
registered_as code g = str_eq g.job_code code

-- A job with a next run time is registered with the timer.
abbrev pub OnlyRegistered : List RegisteredJob → SchedulerJob → Type 0
OnlyRegistered regs j = (j.next_run_at ≡ none) ⊎ (any (registered_as j.job_code) regs ≡ true)

any-snoc :
    (code : String) (regs : List RegisteredJob) (g : RegisteredJob)
    → any (registered_as code) regs ≡ true
    → any (registered_as code) (regs ++ g ∷ []) ≡ true
unfolding any
any-snoc code [] g h = cc
any-snoc code (r ∷ rs) g h = ground (arith, any-snoc code rs g)

any-snoc_self :
    (code : String) (regs : List RegisteredJob) (g : RegisteredJob)
    → registered_as code g ≡ true
    → any (registered_as code) (regs ++ g ∷ []) ≡ true
unfolding any
any-snoc_self code [] g h = ground arith
any-snoc_self code (r ∷ rs) g h = ground (arith, any-snoc_self code rs g h)

All-later :
    (regs : List RegisteredJob) (g : RegisteredJob) (jobs : List SchedulerJob)
    → All (OnlyRegistered regs) jobs
    → All (OnlyRegistered (regs ++ g ∷ [])) jobs
All-later regs g [] h = tt
All-later regs g (j ∷ js) h = (
  elim h.0 [ inl e ↦ inl e | inr e ↦ inr (any-snoc j.job_code regs g e) ],
  All-later regs g js h.1,
)

All-cleared :
    (now : ℕ) (jobs : List SchedulerJob) → All (OnlyRegistered []) (clear_all_next_run_at now jobs)
unfolding clear_all_next_run_at update_where
All-cleared now [] = tt
All-cleared now (j ∷ js) = (inl refl, All-cleared now js)

register_jobs-OnlyRegistered :
    (register : SchedulerJob → Option (Option ℕ)) (now : ℕ) (js : List SchedulerJob) (s : Reloading)
    → All (OnlyRegistered s.registered) s.jobs
    → All
        (OnlyRegistered (register_jobs register now js s).registered)
        (register_jobs register now js s).jobs
unfolding register_jobs update_job_runtime
register_jobs-OnlyRegistered register now [] s h = h
register_jobs-OnlyRegistered register now (j ∷ js) s h =
    go (register j) refl (λ s'. register_jobs-OnlyRegistered register now js s')
  where
    go :
        (o : Option (Option ℕ))
        → register j ≡ o
        → ((s' : Reloading)
            → All (OnlyRegistered s'.registered) s'.jobs
            → All
                (OnlyRegistered (register_jobs register now js s').registered)
                (register_jobs register now js s').jobs)
        → All
            (OnlyRegistered (register_jobs register now (j ∷ js) s).registered)
            (register_jobs register now (j ∷ js) s).jobs
    go none e rest = rw (e, register_jobs) (rest _ h)
    go (some next) e rest =
        let g : RegisteredJob = record { job_code = j.job_code; next_run_time = next } in
        rw (e, register_jobs)
          (rest _ (
            All-update_where (job_is j.job_code) _ (OnlyRegistered (s.registered ++ g ∷ []))
              (λ r c same. inr (
                any-snoc_self r.job_code s.registered g
                  ((eq_iff j.job_code r.job_code).1 (sym ((eq_iff r.job_code j.job_code).0 same)))))
              s.jobs (All-later s.registered g s.jobs h)))

abbrev pub jobs_of : Option (List RegisteredJob) → List RegisteredJob
jobs_of none = []
jobs_of (some regs) = regs

-- A reload that reaches the database leaves a next run time only on jobs that are registered with
-- the timer, whichever of them could not be registered and whatever stood there before.
pub reload-OnlyRegistered :
    (register : SchedulerJob → Option (Option ℕ)) (now : ℕ) (jobs : List SchedulerJob)
    (rt : SchedulerRuntime)
    → let after = reload false register now jobs rt in
      All (OnlyRegistered (jobs_of after.0.scheduler)) after.1
unfolding reload
reload-OnlyRegistered register now jobs rt =
    register_jobs-OnlyRegistered register now
      (list_enabled_cron_jobs (clear_all_next_run_at now jobs)) _ (All-cleared now jobs)
