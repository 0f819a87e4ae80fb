-- ===== src/Scheduler/Service/Table/Executed.antt =====
-- An execution keeps the end times of the runs consistent, whatever its handler does.
use stock_center.Base.{
  ℕ, zero, suc, ◌+◌, ◌≡◌, refl, Bool, true, false, Option, none, some, List, [], ◌∷◌, All,
  Bool-cases, inl, inr, ◌&&◌, String,
}
use stock_center.Base.Json.{Value, Fields}
use stock_center.Scheduler.Store.{
  RunStatus, failed, timeout, cancelled, skipped, is_running, SchedulerJob, SchedulerJobRun,
  Message, run_is, update_run, get_job, get_run,
}
use stock_center.Scheduler.Store.Rows.{All-update_where}
use stock_center.Scheduler.Store.Runs.{IsConsistent}
use stock_center.Scheduler.Execution.{
  ResultStatus, succeeded, was_skipped, status_of, Ending, returns, times_out, is_cancelled, raises,
  Attempt, report_progress, report_all, run_once, retry_loop, run_with_retry, Faults, Finished,
  finished, run_not_found, database_error, returns_none, finish_run, fail_run, or_fail, swallowed,
  finish_ending, execute_started_job, found_row,
}

abbrev pub Consistent : List SchedulerJobRun → Type 0
Consistent runs = All IsConsistent runs

pub report_progress-Consistent :
    (run_id : ℕ) (progress : Value) (runs : List SchedulerJobRun)
    → Consistent runs
    → Consistent (report_progress run_id progress runs)
unfolding report_progress update_run
report_progress-Consistent run_id progress runs h = go (get_run run_id runs) refl
  where
    go :
        (o : Option SchedulerJobRun)
        → get_run run_id runs ≡ o
        → Consistent (report_progress run_id progress runs)
    go none e = rw (e, report_progress) h
    go (some r) e =
        rw (e, report_progress)
          (elim (Bool-cases (is_running r.status)) [
            | inl k ↦ rw (k) (
                All-update_where (run_is run_id) _ IsConsistent
                  (λ r c e. record { open_end = c.open_end; closed_end = c.closed_end }) runs h)
            | inr k ↦ rw (k) h
          ])

report_all-Consistent :
    (run_id : ℕ) (ps : List Value) (runs : List SchedulerJobRun)
    → Consistent runs
    → Consistent (report_all run_id ps runs)
unfolding report_all
report_all-Consistent run_id [] runs h = h
report_all-Consistent run_id (p ∷ ps) runs h =
    report_all-Consistent run_id ps (report_progress run_id p runs)
      (report_progress-Consistent run_id p runs h)

module _ (registered : Bool) (run_id : ℕ) (job : SchedulerJob) (attempt : ℕ → Attempt) where
  run_once-Consistent :
      (a : Attempt) (runs : List SchedulerJobRun)
      → Consistent runs
      → Consistent (run_once registered run_id job a runs).1
  unfolding run_once
  run_once-Consistent a runs h = elim (Bool-cases registered) [
    | inl e ↦ rw (e) (report_all-Consistent run_id a.progress runs h)
    | inr e ↦ rw (e) h
  ]

  retry_loop-Consistent :
      (left n : ℕ) (runs : List SchedulerJobRun)
      → Consistent runs
      → Consistent (retry_loop registered run_id job attempt left n runs).runs
  unfolding retry_loop
  retry_loop-Consistent zero n runs h = run_once-Consistent (attempt n) runs h
  retry_loop-Consistent (suc left) n runs h =
      let once = run_once-Consistent (attempt n) runs h in
      go (run_once registered run_id job (attempt n) runs).0 refl once
        (retry_loop-Consistent left (n + 1) _ once)
    where
      go :
          (e : Ending)
          → (run_once registered run_id job (attempt n) runs).0 ≡ e
          → Consistent (run_once registered run_id job (attempt n) runs).1
          → Consistent
              (retry_loop registered run_id job attempt left
                (n + 1)
                (run_once registered run_id job (attempt n) runs).1).runs
          → Consistent (retry_loop registered run_id job attempt (suc left) n runs).runs
      go (raises code details message) e once again =
          rw (e, retry_loop)
            (elim (Bool-cases (attempt n).cancelled_in_pause) [
              | inl p ↦ rw (p) once
              | inr p ↦ rw (p) again
            ])
      go (returns j) e once again = rw (e, retry_loop) once
      go (times_out m) e once again = rw (e, retry_loop) once
      go is_cancelled e once again = rw (e, retry_loop) once

found_row-runs :
    (run_id : ℕ) (u : Option SchedulerJobRun × List SchedulerJobRun) → (found_row run_id u).1 ≡ u.1
found_row-runs run_id (none, runs) = refl
found_row-runs run_id (some r, runs) = refl

-- A finish with a status that is not running keeps the table consistent.
finish_run-Consistent :
    (now : ℕ) (faults : Faults) (run_id : ℕ) (status : RunStatus) (affected : ℕ)
    (code : Option String) (message : Option Message) (given : Option Fields)
    (runs : List SchedulerJobRun)
    → is_running status ≡ false
    → Consistent runs
    → Consistent (finish_run now faults run_id status affected code message given runs).1
unfolding finish_run update_run
finish_run-Consistent now faults run_id status affected code message given runs ended h =
    elim (Bool-cases (faults.update_fails && faults.fresh_fails)) [
      | inl e ↦ rw (e) h
      | inr e ↦ rw (e) (
          rw (found_row-runs run_id _) (
            All-update_where (run_is run_id) _ IsConsistent
              (λ r c e. record { open_end = λ k. cc; closed_end = λ k q. cc }) runs h))
    ]

status_of-ended : (s : ResultStatus) → is_running (status_of s) ≡ false
status_of-ended succeeded = refl
status_of-ended was_skipped = refl

module _ (now : ℕ) (first second : Faults) (run_id : ℕ) where
  or_fail-Consistent :
      (u : Finished × List SchedulerJobRun)
      → Consistent u.1
      → Consistent (or_fail now first second run_id u).1
  unfolding or_fail fail_run
  or_fail-Consistent (finished r, runs) h = h
  or_fail-Consistent (returns_none, runs) h = h
  or_fail-Consistent (run_not_found, runs) h =
      finish_run-Consistent now second run_id failed 0 _ _ none runs refl h
  or_fail-Consistent (database_error, runs) h =
      finish_run-Consistent now second run_id failed 0 _ _ none runs refl h

  swallowed-Consistent :
      (u : Finished × List SchedulerJobRun) → Consistent u.1 → Consistent (swallowed u).1
  swallowed-Consistent (finished r, runs) h = h
  swallowed-Consistent (run_not_found, runs) h = h
  swallowed-Consistent (database_error, runs) h = h
  swallowed-Consistent (returns_none, runs) h = h

  pub finish_ending-Consistent :
      (e : Ending) (runs : List SchedulerJobRun)
      → Consistent runs
      → Consistent (finish_ending now first second run_id e runs).1
  unfolding finish_ending fail_run
  finish_ending-Consistent (returns j) runs h = or_fail-Consistent _ (
      finish_run-Consistent now first run_id (status_of j.status) j.affected_rows none none
        (some j.summary) runs (status_of-ended j.status) h)
  finish_ending-Consistent (times_out m) runs h =
      finish_run-Consistent now first run_id timeout 0 _ _ none runs refl h
  finish_ending-Consistent is_cancelled runs h =
      finish_run-Consistent now first run_id cancelled 0 _ _ none runs refl h
  finish_ending-Consistent (raises code details message) runs h =
      finish_run-Consistent now first run_id failed 0 _ _ details runs refl h

  pub execute-Consistent :
      (jobs : List SchedulerJob) (registered locked : Bool) (attempt : ℕ → Attempt)
      (job_code : String) (runs : List SchedulerJobRun)
      → Consistent runs
      → Consistent
          (execute_started_job now first second run_id jobs registered locked attempt job_code
            runs).runs
  unfolding execute_started_job run_with_retry
  execute-Consistent jobs registered locked attempt job_code runs h =
      go (get_job job_code jobs) refl registered locked
    where
      go :
          (o : Option SchedulerJob)
          → get_job job_code jobs ≡ o
          → (reg lock : Bool)
          → Consistent
              (execute_started_job now first second run_id jobs reg lock attempt job_code runs).runs
      go none e reg lock =
          rw (e, execute_started_job)
            (finish_run-Consistent now first run_id failed 0 _ _ none runs refl h)
      go (some job) e false lock =
          rw (e, execute_started_job)
            (finish_run-Consistent now first run_id failed 0 _ _ none runs refl h)
      go (some job) e true false =
          rw (e, execute_started_job)
            (swallowed-Consistent _
              (finish_run-Consistent now first run_id skipped 0 _ _ none runs refl h))
      go (some job) e true true =
          rw (e, execute_started_job)
            (finish_ending-Consistent _ _
              (retry_loop-Consistent true run_id job attempt job.retry_count 1 runs h))
