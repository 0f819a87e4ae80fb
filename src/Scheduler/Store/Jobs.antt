-- ===== src/Scheduler/Store/Jobs.antt =====
-- System jobs are protected: no statement deletes one, or makes one of another job.
use stock_center.Base.{
  ℕ, ◌≡◌, refl, ap, Bool, true, false, not, Option, none, some, List, [], ◌∷◌, ◌++◌, arith,
  if◌then◌else◌, Bool-cases, inl, inr, ◌∙◌, ◌&&◌, String, select,
}
use mathlib.Core.List.{append-nil}
use stock_center.Scheduler.Store.{
  SchedulerJob, Assignment, assign, assign_all, Setting, job_is, find, update_where, upsert_job,
  update_job, delete_job, set_job_enabled, clear_all_next_run_at, update_job_runtime,
  conflict_update,
}

-- The codes of the system jobs, in the order of the table.
unfoldable pub system_codes : List SchedulerJob → List String
system_codes [] = []
system_codes (j ∷ js) =
    let rest = system_codes js in if j.is_system then j.job_code ∷ rest else rest

-- A change of rows that keeps their codes and their `is_system` marks keeps the system jobs.
system_codes-update_where :
    (p : SchedulerJob → Bool) (f : SchedulerJob → SchedulerJob)
    → ((j : SchedulerJob) → (f j).job_code ≡ j.job_code)
    → ((j : SchedulerJob) → (f j).is_system ≡ j.is_system)
    → (jobs : List SchedulerJob) → system_codes (update_where p f jobs) ≡ system_codes jobs
unfolding system_codes update_where
system_codes-update_where p f code mark [] = refl
system_codes-update_where p f code mark (j ∷ js) = elim (Bool-cases (p j)) [
  | inl e ↦ rw (e) (rw (mark j, code j, system_codes-update_where p f code mark js) refl)
  | inr e ↦ rw (e) (rw (system_codes-update_where p f code mark js) refl)
]

assign-kept :
    (a : Assignment) (j : SchedulerJob)
    → ((assign a j).job_code ≡ j.job_code) × ((assign a j).is_system ≡ j.is_system)
assign-kept (Assignment.job_name x) j = (refl, refl)
assign-kept _ j = (refl, refl)

assign_all-kept :
    (as' : List Assignment) (j : SchedulerJob)
    → ((assign_all as' j).job_code ≡ j.job_code) × ((assign_all as' j).is_system ≡ j.is_system)
assign_all-kept [] j = (refl, refl)
assign_all-kept (a ∷ as') j =
    let (p, q) = assign-kept a j in let (r, s) = assign_all-kept as' (assign a j) in (r ∙ p, s ∙ q)

system_codes-append :
    (js ks : List SchedulerJob) → system_codes (js ++ ks) ≡ system_codes js ++ system_codes ks
unfolding system_codes
system_codes-append [] ks = refl
system_codes-append (j ∷ js) ks = elim (Bool-cases j.is_system) [
  | inl e ↦ rw (e) (rw (system_codes-append js ks) refl)
  | inr e ↦ rw (e) (rw (system_codes-append js ks) refl)
]

-- What a statement may do to the table of jobs. `_job_create_values` marks no new job as a system
-- job.
pub data Statement : Type 0 where
  upsert : SchedulerJob → Statement
  update : String → List Assignment → Statement
  delete : String → Statement
  enable : String → Bool → Statement
  clear_runs : Statement
  stamp : String → Setting → Setting → Statement

unfoldable pub run_statement : ℕ → Statement → List SchedulerJob → List SchedulerJob
unfolding upsert_job update_job delete_job set_job_enabled clear_all_next_run_at update_job_runtime
run_statement now (upsert v) jobs = upsert_job (record v { is_system = false }) now jobs
run_statement now (update code values) jobs = (update_job code values now jobs).1
run_statement now (delete code) jobs = (delete_job code jobs).1
run_statement now (enable code b) jobs = (set_job_enabled code b now jobs).1
run_statement now clear_runs jobs = clear_all_next_run_at now jobs
run_statement now (stamp code n l) jobs = update_job_runtime code n l now jobs

system_codes-delete :
    (code : String) (jobs : List SchedulerJob)
    → system_codes (select (λ j. not (job_is code j && not j.is_system)) jobs) ≡ system_codes jobs
unfolding system_codes select
system_codes-delete code [] = refl
system_codes-delete code (j ∷ js) = ground (arith, system_codes-delete code js)

system_codes-new :
    (v : SchedulerJob) (now : ℕ)
    → v.is_system ≡ false
    → system_codes (record v { updated_at = now } ∷ []) ≡ []
unfolding system_codes
system_codes-new v now new = rw (new) refl

system_codes-upsert :
    (v : SchedulerJob) (now : ℕ) (jobs : List SchedulerJob)
    → v.is_system ≡ false
    → system_codes (upsert_job v now jobs) ≡ system_codes jobs
unfolding upsert_job
system_codes-upsert v now jobs new = decided (find (job_is v.job_code) jobs) refl
  where
    decided :
        (o : Option SchedulerJob)
        → find (job_is v.job_code) jobs ≡ o
        → system_codes (upsert_job v now jobs) ≡ system_codes jobs
    decided (some old) e =
        rw (e, upsert_job)
          (system_codes-update_where (job_is v.job_code) (conflict_update v now) (λ j. refl)
            (λ j. refl) jobs)
    decided none e =
        rw (e, upsert_job)
          (system_codes-append jobs (record v { updated_at = now } ∷ [])
            ∙ ap (λ cs. system_codes jobs ++ cs) (system_codes-new v now new)
            ∙ append-nil (system_codes jobs))

-- No statement of the repository changes which jobs are system jobs, or their order: upserts and
-- updates leave the mark alone, and a deletion passes over them.
pub run_statement-system_codes :
    (now : ℕ) (s : Statement) (jobs : List SchedulerJob)
    → system_codes (run_statement now s jobs) ≡ system_codes jobs
unfolding run_statement
run_statement-system_codes now (upsert v) jobs =
    system_codes-upsert (record v { is_system = false }) now jobs refl
run_statement-system_codes now (update code []) jobs = refl
run_statement-system_codes now (update code (a ∷ as')) jobs =
    system_codes-update_where (job_is code) _ (λ j. (assign_all-kept (a ∷ as') j).0)
      (λ j. (assign_all-kept (a ∷ as') j).1) jobs
run_statement-system_codes now (delete code) jobs = system_codes-delete code jobs
run_statement-system_codes now (enable code b) jobs =
    system_codes-update_where (job_is code) _ (λ j. refl) (λ j. refl) jobs
run_statement-system_codes now clear_runs jobs =
    system_codes-update_where (λ j. true) _ (λ j. refl) (λ j. refl) jobs
run_statement-system_codes now (stamp code n l) jobs =
    system_codes-update_where (job_is code) _ (λ j. refl) (λ j. refl) jobs
