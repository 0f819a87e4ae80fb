-- ===== src/Scheduler/Service/Execute.antt =====
-- What an execution leaves in the table of runs, whatever the handler does.
pub mod Written
pub mod Unlocked
use stock_center.Base.{
  ℕ, zero, suc, ◌+◌, ◌≡◌, refl, Bool, true, false, none, some, List, [], Bool-cases, inl, inr, ◌⊎◌,
  ◌&&◌, String,
}
use stock_center.Base.Json.{Fields}
use stock_center.Scheduler.Store.{is_running, SchedulerJob, SchedulerJobRun, get_job, get_run}
use stock_center.Scheduler.Execution.{
  Attempt, Faults, retry_loop, run_with_retry, finish_ending, execute_started_job,
}
use stock_center.Scheduler.Service.Finish.{
  OthersKept, OthersKept-trans, checkpoint, report_all-running,
}
use stock_center.Scheduler.Service.Retry.{
  Ending-cases, ending_of, reported, retry_loop-stops, retry_loop-errs, retry_loop-zero,
}
use stock_center.Scheduler.Service.Execute.Written.{
  Wrote, ended_row, ended_row-terminal, finish_ending-Wrote, is_terminal,
}
use stock_center.Scheduler.Service.Execute.Unlocked.{Refused, refused-Wrote, refused-fails}

-- The run's row after the loop: the row before it, with the checkpoints of the attempts made.
pub record Checkpointed (run_id : ℕ) (r : SchedulerJobRun) (before after : List SchedulerJobRun)
    : Type 0 where
  pub summary : Fields
  pub row : get_run run_id after ≡ some (record r { result_summary = summary })
  pub others : OthersKept run_id before after

module _ (run_id : ℕ) (job : SchedulerJob) (attempt : ℕ → Attempt) where
  reported-Checkpointed :
      (n : ℕ) (runs : List SchedulerJobRun) (r : SchedulerJobRun)
      → get_run run_id runs ≡ some r
      → is_running r.status ≡ true
      → Checkpointed run_id r runs (reported run_id job attempt n runs)
  reported-Checkpointed n runs r h k =
      let (row, others) = report_all-running run_id (attempt n).progress runs r h k in
      record {
        summary = checkpoint (attempt n).progress r.result_summary;
        row = row;
        others = others;
      }

  pub retry_loop-Checkpointed :
      (left n : ℕ) (runs : List SchedulerJobRun) (r : SchedulerJobRun)
      → get_run run_id runs ≡ some r
      → is_running r.status ≡ true
      → Checkpointed run_id r runs (retry_loop true run_id job attempt left n runs).runs
  retry_loop-Checkpointed zero n runs r h k =
      rw (retry_loop-zero run_id job attempt n runs) (reported-Checkpointed n runs r h k)
  retry_loop-Checkpointed (suc left) n runs r h k =
      let c = reported-Checkpointed n runs r h k in
      let rs = reported run_id job attempt n runs in
      elim (Ending-cases (ending_of run_id job attempt n)) [
        | inl e ↦ rw (retry_loop-stops run_id job attempt n left runs e) c
        | inr (code, details, message, e) ↦
            rw (retry_loop-errs run_id job attempt n left runs e)
              (elim (Bool-cases (attempt n).cancelled_in_pause) [
                | inl p ↦ rw (p) c
                | inr p ↦ rw (p) (
                    let d =
                      retry_loop-Checkpointed left (n + 1) rs
                        (record r { result_summary = c.summary }) c.row k in
                    record {
                      summary = d.summary;
                      row = d.row;
                      others =
                          OthersKept-trans run_id runs rs
                            (retry_loop true run_id job attempt left (n + 1) rs).runs c.others
                            d.others;
                    })
              ])
      ]

-- A run that is executed under the lock, for a job that exists and has a handler, when the first
-- finish can write: whatever the handler does on each attempt, the run ends finished in one of the
-- terminal states at the time of the finish, and its row is the one that the ending of the retry
-- loop asks for, with the last checkpoint as its summary where the ending brings none and it can
-- be read; no other row changes.
pub execute_started_job-Wrote :
    (now : ℕ) (first second : Faults) (run_id : ℕ) (jobs : List SchedulerJob)
    (attempt : ℕ → Attempt) (job_code : String) (runs : List SchedulerJobRun) (job : SchedulerJob)
    (r : SchedulerJobRun)
    → get_job job_code jobs ≡ some job
    → get_run run_id runs ≡ some r
    → is_running r.status ≡ true
    → (first.update_fails && first.fresh_fails) ≡ false
    → let loop = run_with_retry true run_id job attempt runs in
      let after =
        execute_started_job now first second run_id jobs true true attempt job_code runs in
      (summary : Fields) × (row : SchedulerJobRun) × (get_run run_id loop.runs
        ≡ some (record r { result_summary = summary }))
      × (row ≡ ended_row now first.read_fails loop.ending (record r { result_summary = summary }))
      × (is_terminal row.status ≡ true)
      × (row.finished_at ≡ some now)
      × Wrote run_id runs row (after.result, after.runs)
unfolding execute_started_job run_with_retry
execute_started_job-Wrote now first second run_id jobs attempt job_code runs job r found h k works =
    let loop = retry_loop true run_id job attempt job.retry_count 1 runs in
    let c = retry_loop-Checkpointed run_id job attempt job.retry_count 1 runs r h k in
    let r' = λ (s : Fields). record r { result_summary = s } in
    let row = ended_row now first.read_fails loop.ending (r' c.summary) in
    let w =
      finish_ending-Wrote now first second run_id loop.runs (r' c.summary) c.row works
        loop.ending in
    let (terminal, stamped) = ended_row-terminal now first.read_fails loop.ending (r' c.summary) in
    (
      c.summary,
      row,
      c.row,
      refl,
      terminal,
      stamped,
      rw (found, execute_started_job)
          (record {
            result = w.result;
            stored = w.stored;
            others =
                OthersKept-trans run_id runs loop.runs
                  (finish_ending now first second run_id loop.ending loop.runs).1 c.others w.others;
          }),
    )

-- An execution of a run that is in the table, whose job is gone, has no handler, or is locked by
-- another run, makes no attempt and no pause. Where one of the sessions can write the finish, it
-- finishes the run as failed, failed and skipped, and changes no other row. Where neither can, it
-- changes no row at all, and the caller gets the database's error, or None if the run was refused
-- for the lock.
pub execute_started_job-Refused :
    (now : ℕ) (first second : Faults) (run_id : ℕ) (jobs : List SchedulerJob)
    (registered locked : Bool) (attempt : ℕ → Attempt) (job_code : String)
    (runs : List SchedulerJobRun) (r : SchedulerJobRun)
    → get_run run_id runs ≡ some r
    → (get_job job_code jobs ≡ none) ⊎ ((registered && locked) ≡ false)
    → let after =
        execute_started_job now first second run_id jobs registered locked attempt job_code runs in
      Refused now first.read_fails run_id
        (get_job job_code jobs)
        registered
        job_code
        runs
        r
        (first.update_fails && first.fresh_fails)
        after
      × (after.attempts ≡ 0)
      × (after.sleeps ≡ [])
execute_started_job-Refused now first second run_id jobs registered locked attempt job_code runs r h
      refused =
    elim (Bool-cases (first.update_fails && first.fresh_fails)) [
      | inl fails ↦
          let (result, same, attempts, sleeps) =
            refused-fails now first second run_id jobs registered locked attempt job_code runs fails
              refused in
          rw (fails) ((result, same), attempts, sleeps)
      | inr works ↦ rw (works) (
          refused-Wrote now first second run_id jobs registered locked attempt job_code runs r h
            works refused)
    ]
