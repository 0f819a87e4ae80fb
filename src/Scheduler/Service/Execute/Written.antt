-- ===== src/Scheduler/Service/Execute/Written.antt =====
-- What the finish that follows an ending leaves in the table of runs.
use stock_center.Base.{
  ℕ, ◌≡◌, refl, Bool, true, false, Option, none, some, List, arith, ◌&&◌, String,
}
use stock_center.Base.Json.{Fields}
use stock_center.Scheduler.Store.{
  RunStatus, queued, running, failed, timeout, cancelled, SchedulerJobRun, Message, text, get_run,
}
use stock_center.Scheduler.Execution.{
  status_of, Ending, returns, times_out, is_cancelled, raises, Faults, Finished, finished,
  finish_run, fail_run, or_fail, code_or_failed, finish_ending,
}
use stock_center.Scheduler.Service.Finish.{OthersKept, finished_row, summary_or, finish_run-found}

-- The row that an ending should leave, `r` being the row after the loop and `read_fails` whether
-- the last checkpoint could not be read.
abbrev pub ended_row : ℕ → Bool → Ending → SchedulerJobRun → SchedulerJobRun
ended_row now read_fails (returns j) r =
    finished_row now (status_of j.status) j.affected_rows none none j.summary r
ended_row now read_fails (times_out m) r =
    finished_row now timeout 0 (some "job_timeout") (some (text m)) (summary_or read_fails none r) r
ended_row now read_fails is_cancelled r =
    finished_row now cancelled 0 (some "job_cancelled") (some (text "job cancellation requested"))
      (summary_or read_fails none r) r
ended_row now read_fails (raises code details message) r =
    finished_row now failed 0 (some (code_or_failed code)) (some message)
      (summary_or read_fails details r) r

-- A finish that wrote `row`.
pub record Wrote (run_id : ℕ) (before : List SchedulerJobRun) (row : SchedulerJobRun)
    (u : Finished × List SchedulerJobRun) : Type 0 where
  pub result : u.0 ≡ finished row
  pub stored : get_run run_id u.1 ≡ some row
  pub others : OthersKept run_id before u.1

pub Wrote-or_fail :
    (now : ℕ) (first second : Faults) (run_id : ℕ) (before : List SchedulerJobRun)
    (row : SchedulerJobRun) (u : Finished × List SchedulerJobRun)
    → Wrote run_id before row u
    → Wrote run_id before row (or_fail now first second run_id u)
unfolding or_fail
Wrote-or_fail now first second run_id before row (finished r, runs) w = w
Wrote-or_fail now first second run_id before row (_, runs) w = absurd (ground (arith, w.result))

module _ (now : ℕ) (first second : Faults) (run_id : ℕ) (runs : List SchedulerJobRun)
    (r : SchedulerJobRun) (h : get_run run_id runs ≡ some r)
    (works : (first.update_fails && first.fresh_fails) ≡ false) where
  pub finish-Wrote :
      (status : RunStatus) (affected : ℕ) (code : Option String) (message : Option Message)
      (given : Option Fields)
      → Wrote run_id runs
          (finished_row now status affected code message (summary_or first.read_fails given r) r)
          (finish_run now first run_id status affected code message given runs)
  finish-Wrote status affected code message given =
      let (result, stored, others) =
        finish_run-found now first run_id status affected code message given runs r h works in
      record { result = result; stored = stored; others = others }

  pub finish_ending-Wrote :
      (ending : Ending)
      → Wrote run_id runs
          (ended_row now first.read_fails ending r)
          (finish_ending now first second run_id ending runs)
  unfolding finish_ending fail_run
  finish_ending-Wrote (returns j) =
      Wrote-or_fail now first second run_id runs _ _
        (finish-Wrote (status_of j.status) j.affected_rows none none (some j.summary))
  finish_ending-Wrote (times_out m) =
      finish-Wrote timeout 0 (some "job_timeout") (some (text m)) none
  finish_ending-Wrote is_cancelled =
      finish-Wrote cancelled 0 (some "job_cancelled") (some (text "job cancellation requested"))
        none
  finish_ending-Wrote (raises code details message) =
      finish-Wrote failed 0 (some (code_or_failed code)) (some message) details

abbrev pub is_terminal : RunStatus → Bool
is_terminal queued = false
is_terminal running = false
is_terminal _ = true

pub ended_row-terminal :
    (now : ℕ) (read_fails : Bool) (ending : Ending) (r : SchedulerJobRun)
    → (is_terminal (ended_row now read_fails ending r).status ≡ true)
      × ((ended_row now read_fails ending r).finished_at ≡ some now)
ended_row-terminal now read_fails (returns j) r = ground arith
ended_row-terminal now read_fails _ r = (refl, refl)
