-- ===== src/Scheduler/Service.antt =====
-- python-back/app/modules/scheduler_center/service.py: how a run of a job is started and cancelled.
-- The semaphore that bounds how many jobs run at once only delays a run, and is left out.
pub mod Finish
pub mod Retry
pub mod Execute
pub mod Start
pub mod Table
pub mod Cancel
use stock_center.Base.{
  ℕ, zero, suc, ◌+◌, ◌-◌, ◌*◌, ◌/◌, ◌%◌, ◌≤◌, ◌<◌, ◌≡◌, ◌≢◌, ◌↔◌, refl, ap, sym, Bool, true, false,
  not, Option, none, some, List, [], ◌∷◌, ◌++◌, map, arith, ltb, leb, ◌==◌, ==_iff, if◌then◌else◌,
  length, get_elem?, All, All-append, All-map_of, Bool-cases, Option-cases, inl, inr, ◌⊎◌, ◌∙◌, max,
  min, ◌&&◌, ◌||◌, ltb→lt, lt→ltb, leb→le, String, str_eq, eq_iff, any, select, length-append,
}
use stock_center.Base.Int.{ℤ}
use stock_center.Base.Json.{Value, Fields, end, field, obj, get, set_field, merge}
use stock_center.Scheduler.Payload.{Outcome, accepted, bound_not_a_number, validate_payload}
use stock_center.Scheduler.Store.{
  RunStatus, queued, running, success, failed, timeout, cancelled, skipped, is_running,
  SchedulerJob, SchedulerJobRun, Message, text, job_not_found, job_handler_not_found,
  job_already_running, job_run_not_found, get_job, get_run, update_run, record_run,
  update_job_runtime, unset, to, cancel_running_run,
}
use stock_center.Scheduler.Execution.{Faults, finish_run}

-- The keys of the old default payload that its schema does not have.
unfoldable pub legacy_unknown : Fields → Fields → List String
unfolding get
legacy_unknown schema end = []
legacy_unknown schema (field k v fs) =
    let rest = legacy_unknown schema fs in elim (get k schema) [ none ↦ k ∷ rest | some d ↦ rest ]

pub data Started : Type 0 where
  started : SchedulerJobRun → Started
  scheduler_error : String → Started
  unexpected_error : Started

abbrev pub new_run : ℕ → ℕ → String → String → Fields → SchedulerJobRun
new_run now run_id job_code trigger_source payload = record {
  run_id = run_id;
  job_code = job_code;
  trigger_source = trigger_source;
  status = running;
  payload = payload;
  affected_rows = 0;
  started_at = now;
  finished_at = none;
  error_code = none;
  error_message = none;
  result_summary = end;
}

pub record Tables : Type 0 where
  pub jobs : List SchedulerJob
  pub runs : List SchedulerJobRun

-- start_job: `run_id` is the fresh uuid.
unfoldable pub start_job :
    (String → Option ℤ) → ℕ → ℕ → Bool → String → Fields → String → Tables → Started × Tables
unfolding get_job merge validate_payload legacy_unknown record_run update_job_runtime
start_job float_text now run_id registered job_code payload trigger_source t =
    elim (get_job job_code t.jobs) [
      | none ↦ (scheduler_error "job_not_found", t)
      | some job ↦
          if registered
          then (let run_payload = merge job.default_payload payload in
              let verdict =
                validate_payload float_text run_payload job.parameter_schema
                  (legacy_unknown job.parameter_schema job.default_payload) in
              let run = new_run now run_id job_code trigger_source run_payload in
              elim verdict [
                | accepted ↦ (
                  started run,
                  record {
                    jobs = update_job_runtime job_code unset (to (some now)) now t.jobs;
                    runs = record_run run t.runs;
                  },
                )
                | bound_not_a_number ↦ (unexpected_error, t)
                | _ ↦ (scheduler_error "invalid_job_payload", t)
              ])
          else (scheduler_error "job_handler_not_found", t)
    ]

-- cancel_run_record: the row that the caller reads, and the table.
unfoldable pub cancel_run_record :
    ℕ → ℕ → String → String → List SchedulerJobRun → Option SchedulerJobRun × List SchedulerJobRun
unfolding cancel_running_run get_run
cancel_run_record now run_id error_code error_message runs =
    let (row, runs') = cancel_running_run run_id error_code error_message now runs in
    (elim row [ none ↦ get_run run_id runs' | some r ↦ some r ], runs')
