-- ===== src/Scheduler/Execution.antt =====
-- python-back/app/modules/scheduler_center/service.py: how a run of a job is executed with retries
-- and finished. What the job's handler does on each attempt, whether the advisory lock was free, which
-- database calls fail, and the clock readings are arguments.
use stock_center.Base.{
  ℕ, zero, suc, ◌+◌, Bool, Option, none, some, List, [], ◌∷◌, ltb, ◌==◌, if◌then◌else◌, ◌&&◌,
  String, str_eq,
}
use stock_center.Base.Json.{Value, Fields, end, set_field}
use stock_center.Scheduler.Store.{
  RunStatus, success, failed, timeout, cancelled, skipped, is_running, SchedulerJob,
  SchedulerJobRun, Message, text, job_not_found, job_handler_not_found, job_already_running,
  job_run_not_found, get_job, get_run, update_run,
}

-- JobResult: its status is "success" or "skipped".
pub data ResultStatus : Type 0 where
  succeeded was_skipped : ResultStatus

abbrev pub status_of : ResultStatus → RunStatus
status_of succeeded = success
status_of was_skipped = skipped

pub record JobResult : Type 0 where
  pub status : ResultStatus
  pub affected_rows : ℕ
  pub summary : Fields

-- How an attempt ends. An exception carries its `code` attribute where that is a text, and its
-- `details` where they are a dict.
pub data Ending : Type 0 where
  returns : JobResult → Ending
  times_out : String → Ending
  is_cancelled : Ending
  raises : Option String → Option Fields → Message → Ending

-- One attempt of the handler: the progress it reports, how long it takes, how it ends, and
-- whether a cancellation arrives in the pause after it.
pub record Attempt : Type 0 where
  pub progress : List Value
  pub seconds : ℕ
  pub ending : Ending
  pub cancelled_in_pause : Bool

-- The body of report_progress: the latest snapshot is written while the run is running.
unfoldable pub report_progress : ℕ → Value → List SchedulerJobRun → List SchedulerJobRun
unfolding get_run update_run set_field
report_progress run_id progress runs = elim (get_run run_id runs) [
  | none ↦ runs
  | some run ↦
      if is_running run.status
      then (update_run run_id
          (λ r. record r { result_summary = set_field "progress" progress run.result_summary })
          runs).1
      else runs
]

unfoldable pub report_all : ℕ → List Value → List SchedulerJobRun → List SchedulerJobRun
unfolding report_progress
report_all run_id [] runs = runs
report_all run_id (p ∷ ps) runs = report_all run_id ps (report_progress run_id p runs)

abbrev pub seconds_or_zero : Option ℕ → ℕ
seconds_or_zero none = 0
seconds_or_zero (some s) = s

-- asyncio.wait_for ends the handler with TimeoutError when its time is over.
abbrev pub limited : Option ℕ → Attempt → Ending
limited timeout_seconds a =
    if ltb 0 (seconds_or_zero timeout_seconds) && ltb (seconds_or_zero timeout_seconds) a.seconds
    then times_out ""
    else a.ending

-- _run_once, `registered` being whether the registry has a handler for the job.
unfoldable pub run_once :
    Bool → ℕ → SchedulerJob → Attempt → List SchedulerJobRun → Ending × List SchedulerJobRun
unfolding report_all
run_once registered run_id job a runs =
    if registered
    then (limited job.timeout_seconds a, report_all run_id a.progress runs)
    else (raises (some "job_handler_not_found") none (job_handler_not_found job.job_code), runs)

-- `int(job.retry_interval_seconds or 60)`
abbrev pub pause_seconds : SchedulerJob → ℕ
pause_seconds job = if job.retry_interval_seconds == 0 then 60 else job.retry_interval_seconds

pub record Retried : Type 0 where
  pub ending : Ending
  pub runs : List SchedulerJobRun
  pub attempts : ℕ
  pub sleeps : List ℕ

abbrev pub stopped : ℕ → List SchedulerJobRun → Ending → Retried
stopped n runs e = record { ending = e; runs = runs; attempts = n; sleeps = [] }

abbrev pub one_more_sleep : ℕ → Retried → Retried
one_more_sleep seconds r = record r { sleeps = seconds ∷ r.sleeps }

module _ (registered : Bool) (run_id : ℕ) (job : SchedulerJob) (attempt : ℕ → Attempt) where
  -- The `while` loop of _run_with_retry from its attempt number `n` on, with `left` attempts
  -- allowed after that one. Only an exception other than TimeoutError leads to another attempt.
  unfoldable pub retry_loop : ℕ → ℕ → List SchedulerJobRun → Retried
  unfolding run_once
  retry_loop zero n runs =
      let (ending, runs') = run_once registered run_id job (attempt n) runs in
      stopped n runs' ending
  retry_loop (suc left) n runs =
      let (ending, runs') = run_once registered run_id job (attempt n) runs in
      let again = retry_loop left (n + 1) runs' in
      elim ending [
        | raises code details message ↦
            one_more_sleep (pause_seconds job)
              (if (attempt n).cancelled_in_pause then stopped n runs' is_cancelled else again)
        | other ↦ stopped n runs' other
      ]

  -- max_attempts is max(retry_count + 1, 1).
  unfoldable pub run_with_retry : List SchedulerJobRun → Retried
  unfolding retry_loop
  run_with_retry runs = retry_loop job.retry_count 1 runs

-- Which database calls of one _finish_run raise: the read of the last checkpoint, the update on
-- the current session, and the update on a fresh one.
pub record Faults : Type 0 where
  pub read_fails : Bool
  pub update_fails : Bool
  pub fresh_fails : Bool

pub data Finished : Type 0 where
  finished : SchedulerJobRun → Finished
  run_not_found : Finished
  database_error : Finished
  -- the error is lost and the caller gets None
  returns_none : Finished

abbrev pub found_row :
    ℕ → Option SchedulerJobRun × List SchedulerJobRun → Finished × List SchedulerJobRun
found_row run_id (none, runs) = (run_not_found, runs)
found_row run_id (some r, runs) = (finished r, runs)

-- The summary to store: the one given, else the last checkpoint, else {}.
unfoldable pub final_summary : Bool → ℕ → Option Fields → List SchedulerJobRun → Fields
unfolding get_run
final_summary read_fails run_id (some summary) runs = summary
final_summary read_fails run_id none runs =
    if read_fails
    then end
    else elim (get_run run_id runs) [ none ↦ end | some r ↦ r.result_summary ]

-- `getattr(exc, "code", None) or "job_failed"`
abbrev pub code_or_failed : Option String → String
code_or_failed none = "job_failed"
code_or_failed (some code) = if str_eq code "" then "job_failed" else code

module _ (now : ℕ) (faults : Faults) (run_id : ℕ) where
  unfoldable pub finish_run :
      RunStatus
      → ℕ
      → Option String
      → Option Message
      → Option Fields
      → List SchedulerJobRun
      → Finished × List SchedulerJobRun
  unfolding final_summary update_run
  finish_run status affected_rows error_code error_message result_summary runs =
      let summary = final_summary faults.read_fails run_id result_summary runs in
      let written = found_row run_id (
        update_run run_id
          (λ r. record r {
            status = status;
            affected_rows = affected_rows;
            finished_at = some now;
            error_code = error_code;
            error_message = error_message;
            result_summary = summary;
          })
          runs) in
      if faults.update_fails && faults.fresh_fails then (database_error, runs) else written

  -- The general `except` clause, which finishes the run as failed.
  unfoldable pub fail_run :
      Option String
      → Option Fields
      → Message
      → List SchedulerJobRun
      → Finished × List SchedulerJobRun
  unfolding finish_run
  fail_run code details message runs =
      finish_run failed 0 (some (code_or_failed code)) (some message) details runs

pub record Execution : Type 0 where
  pub result : Finished
  pub runs : List SchedulerJobRun
  pub attempts : ℕ
  pub sleeps : List ℕ

abbrev pub executed : ℕ → List ℕ → Finished × List SchedulerJobRun → Execution
executed attempts sleeps (result, runs) = record {
  result = result;
  runs = runs;
  attempts = attempts;
  sleeps = sleeps;
}

-- Without the lock, hold_advisory_lock leaves by the `return` in its `finally` clause, which drops
-- an error of the finish before it comes to the `except` clauses.
abbrev pub swallowed : Finished × List SchedulerJobRun → Finished × List SchedulerJobRun
swallowed (finished r, runs) = (finished r, runs)
swallowed (_, runs) = (returns_none, runs)

-- `first` and `second` are the faults of the first and of the second _finish_run of an execution.
module _ (now : ℕ) (first second : Faults) (run_id : ℕ) where
  -- A finish inside the `try`: if it raises, the run is finished as failed instead.
  unfoldable pub or_fail : Finished × List SchedulerJobRun → Finished × List SchedulerJobRun
  unfolding fail_run
  or_fail (finished r, runs) = (finished r, runs)
  or_fail (run_not_found, runs) =
      fail_run now second run_id (some "job_run_not_found") none (job_run_not_found run_id) runs
  or_fail (returns_none, runs) = (returns_none, runs)
  or_fail (database_error, runs) = fail_run now second run_id none none (text "database error") runs

  unfoldable pub finish_ending : Ending → List SchedulerJobRun → Finished × List SchedulerJobRun
  unfolding or_fail finish_run
  finish_ending (returns r) runs = or_fail (
      finish_run now first run_id (status_of r.status) r.affected_rows none none (some r.summary)
        runs)
  finish_ending (times_out message) runs =
      finish_run now first run_id timeout 0 (some "job_timeout") (some (text message)) none runs
  finish_ending is_cancelled runs =
      finish_run now first run_id cancelled 0 (some "job_cancelled")
        (some (text "job cancellation requested")) none runs
  finish_ending (raises code details message) runs =
      fail_run now first run_id code details message runs

  unfoldable pub execute_started_job :
      List SchedulerJob → Bool → Bool → (ℕ → Attempt) → String → List SchedulerJobRun → Execution
  unfolding get_job run_with_retry finish_ending
  execute_started_job jobs registered locked attempt job_code runs = elim (get_job job_code jobs) [
    | none ↦ executed 0 [] (
        finish_run now first run_id failed 0 (some "job_not_found") (some (job_not_found job_code))
          none runs)
    | some job ↦
        if registered
        then (if locked
            then (let r = run_with_retry registered run_id job attempt runs in
                executed r.attempts r.sleeps (finish_ending r.ending r.runs))
            else executed 0 [] (
                swallowed (
                  finish_run now first run_id skipped 0 (some "already_running")
                    (some (job_already_running job_code)) none runs)))
        else executed 0 [] (
            finish_run now first run_id failed 0 (some "job_handler_not_found")
              (some (job_handler_not_found job_code)) none runs)
  ]
