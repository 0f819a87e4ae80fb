-- ===== src/Scheduler/Service/Table.antt =====
-- The life of the rows in the table of runs, under the calls of the service and the sweep at start-up.
pub mod Executed
use stock_center.Base.{
  ℕ, ◌≡◌, refl, Bool, true, false, Option, none, some, List, [], ◌∷◌, All, All-append, ◌&&◌, String,
}
use stock_center.Base.Int.{ℤ}
use stock_center.Base.Json.{Value, Fields, merge}
use stock_center.Scheduler.Payload.{Outcome, accepted, validate_payload}
use stock_center.Scheduler.Store.{
  is_running, SchedulerJob, SchedulerJobRun, run_is, get_job, record_run, cancel_running_run,
  mark_orphaned_running_runs,
}
use stock_center.Scheduler.Store.Rows.{All-update_where}
use stock_center.Scheduler.Store.Runs.{IsConsistent}
use stock_center.Scheduler.Execution.{
  Attempt, Ending, Faults, execute_started_job, finish_ending, report_progress,
}
use stock_center.Scheduler.Service.{Tables, start_job, cancel_run_record, new_run, legacy_unknown}
use stock_center.Scheduler.Service.Table.Executed.{
  Consistent, report_progress-Consistent, execute-Consistent, finish_ending-Consistent,
}

-- What the program does to the table of runs: a run is started, whatever comes of it; a run is
-- executed to its end, whatever its handler does and whichever calls of the database fail; or only
-- a checkpoint is reported, or the ending of a handler written, with other changes between them; a run
-- is cancelled; at start-up all running rows are orphaned.
pub data Change (runs : List SchedulerJobRun) : List SchedulerJobRun → Type 0 where
  starts :
      (float_text : String → Option ℤ) (now run_id : ℕ) (registered : Bool) (job_code : String)
      (payload : Fields) (source : String) (jobs : List SchedulerJob)
      → Change runs
          (start_job float_text now run_id registered job_code payload source
            (record { jobs = jobs; runs = runs })).1.runs
  executes :
      (now : ℕ) (first second : Faults) (run_id : ℕ) (jobs : List SchedulerJob)
      (registered locked : Bool) (attempt : ℕ → Attempt) (job_code : String)
      → Change runs
          (execute_started_job now first second run_id jobs registered locked attempt job_code
            runs).runs
  finishes :
      (now : ℕ) (first second : Faults) (run_id : ℕ) (e : Ending)
      → Change runs (finish_ending now first second run_id e runs).1
  reports : (run_id : ℕ) (progress : Value) → Change runs (report_progress run_id progress runs)
  cancels :
      (now run_id : ℕ) (code message : String)
      → Change runs (cancel_run_record now run_id code message runs).1
  orphans :
      (now : ℕ) (code message : String)
      → Change runs (mark_orphaned_running_runs code message now runs).1

pub data Reach (runs : List SchedulerJobRun) : List SchedulerJobRun → Type 0 where
  here : Reach runs runs
  next : {b c : List SchedulerJobRun} → Reach runs b → Change b c → Reach runs c

start_job-Consistent :
    (float_text : String → Option ℤ) (now run_id : ℕ) (registered : Bool) (job_code : String)
    (payload : Fields) (source : String) (t : Tables)
    → Consistent t.runs
    → Consistent (start_job float_text now run_id registered job_code payload source t).1.runs
unfolding start_job record_run
start_job-Consistent float_text now run_id registered job_code payload source t h =
    with_job (get_job job_code t.jobs) refl registered
  where
    Goal : Bool → Type 0
    Goal reg = Consistent (start_job float_text now run_id reg job_code payload source t).1.runs

    with_verdict :
        (job : SchedulerJob)
        → get_job job_code t.jobs ≡ some job
        → (o : Outcome)
        → validate_payload float_text
            (merge job.default_payload payload)
            job.parameter_schema
            (legacy_unknown job.parameter_schema job.default_payload)
          ≡ o
        → Goal true
    with_verdict job e accepted v =
        let run = new_run now run_id job_code source (merge job.default_payload payload) in
        rw (e, start_job)
          (rw (v, start_job)
            (All-append IsConsistent t.runs (run ∷ []) h
              (record { open_end = λ k. refl; closed_end = λ k. cc }, tt)))
    with_verdict job e _ v = rw (e, start_job) (rw (v, start_job) h)

    with_job : (o : Option SchedulerJob) → get_job job_code t.jobs ≡ o → (reg : Bool) → Goal reg
    with_job none e reg = rw (e, start_job) h
    with_job (some job) e false = rw (e, start_job) h
    with_job (some job) e true =
        with_verdict job e
          (validate_payload float_text (merge job.default_payload payload) job.parameter_schema
            (legacy_unknown job.parameter_schema job.default_payload))
          refl

Change-Consistent : {a b : List SchedulerJobRun} → Change a b → Consistent a → Consistent b
unfolding cancel_run_record cancel_running_run mark_orphaned_running_runs
Change-Consistent {a} (starts float_text now run_id registered job_code payload source jobs) h =
    start_job-Consistent float_text now run_id registered job_code payload source
      (record { jobs = jobs; runs = a }) h
Change-Consistent {a} (executes now first second run_id jobs registered locked attempt job_code) h =
    execute-Consistent now first second run_id jobs registered locked attempt job_code a h
Change-Consistent {a} (finishes now first second run_id e) h =
    finish_ending-Consistent now first second run_id e a h
Change-Consistent {a} (reports run_id progress) h = report_progress-Consistent run_id progress a h
Change-Consistent {a} (cancels now run_id code message) h =
    All-update_where (λ r. run_is run_id r && is_running r.status) _ IsConsistent
      (λ r c e. record { open_end = λ k. cc; closed_end = λ k q. cc }) a h
Change-Consistent {a} (orphans now code message) h =
    All-update_where (λ r. is_running r.status) _ IsConsistent
      (λ r c e. record { open_end = λ k. cc; closed_end = λ k q. cc }) a h

-- Whatever runs are started, reported on, finished, executed to their end, cancelled and orphaned, in any
-- order, from an empty table, with any handlers and database failures: every run in the table has an
-- end time exactly when it is not running.
pub Reach-IsConsistent : {runs : List SchedulerJobRun} → Reach [] runs → All IsConsistent runs
Reach-IsConsistent here = tt
Reach-IsConsistent (next r c) = Change-Consistent c (Reach-IsConsistent r)
