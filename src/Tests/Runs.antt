-- ===== src/Tests/Runs.antt =====
-- Examples for the life of a run.
use stock_center.Base.{
  ℕ, ◌≡◌, refl, List, [], ◌∷◌, some, none, Option, true, false, inr, String, All, ◌==◌,
  if◌then◌else◌,
}
use stock_center.Base.Int.{ℤ, pos}
use stock_center.Base.Json.{int, Fields, end, field, get}
use stock_center.Scheduler.Store.{SchedulerJobRun, success, text, get_job, get_run}
use stock_center.Scheduler.Store.Runs.{IsConsistent}
use stock_center.Scheduler.Service.Table.{here, next, starts, executes, Reach-IsConsistent}
use stock_center.Scheduler.Execution.{
  returns, raises, succeeded, Attempt, Faults, finish_run, run_with_retry, execute_started_job,
}
use stock_center.Scheduler.Service.{start_job, new_run, cancel_run_record}
use stock_center.Scheduler.Service.Retry.{Follows, run_with_retry-Follows}
use stock_center.Scheduler.Service.Execute.Written.{ended_row, is_terminal, Wrote}
use stock_center.Scheduler.Service.Execute.{execute_started_job-Wrote, execute_started_job-Refused}
use stock_center.Scheduler.Service.Execute.Unlocked.{Refused}
use stock_center.Scheduler.Service.Start.{StartsOrKeeps, start_job-StartsOrKeeps}
use stock_center.Scheduler.Service.Cancel.{cancelled_row, Unique, finish_run-after_cancel}
use stock_center.Tests.Schedules.{daily}

abbrev run : SchedulerJobRun
run = new_run 100 1 "daily" "manual" end

abbrev open_runs : List SchedulerJobRun
open_runs = run ∷ []

abbrev works : Faults
works = record { read_fails = false; update_fails = false; fresh_fails = false }

-- The first attempt fails, the second one succeeds.
abbrev attempt : ℕ → Attempt
attempt n = record {
  progress = int (pos n) ∷ [];
  seconds = 1;
  ending =
      if n == 1
      then raises none none (text "network")
      else returns (record { status = succeeded; affected_rows = 7; summary = end });
  cancelled_in_pause = false;
}

found : get_run 1 open_runs ≡ some run
unfolding get_run
found = refl

job_found : get_job "daily" (daily ∷ []) ≡ some daily
unfolding get_job
job_found = refl

execute_started_job-Wrote_example :
    let loop = run_with_retry true 1 daily attempt open_runs in
    let after =
      execute_started_job 200 works works 1 (daily ∷ []) true true attempt "daily" open_runs in
    (summary : Fields) × (row : SchedulerJobRun) × (get_run 1 loop.runs
      ≡ some (record run { result_summary = summary }))
    × (row ≡ ended_row 200 false loop.ending (record run { result_summary = summary }))
    × (is_terminal row.status ≡ true)
    × (row.finished_at ≡ some 200)
    × Wrote 1 open_runs row (after.result, after.runs)
execute_started_job-Wrote_example =
    execute_started_job-Wrote 200 works works 1 (daily ∷ []) attempt "daily" open_runs daily run
      job_found found refl refl

-- Neither session can write.
abbrev cut_off : Faults
cut_off = record { read_fails = true; update_fails = true; fresh_fails = true }

execute_started_job-Refused_example :
    let after =
      execute_started_job 200 cut_off works 1 (daily ∷ []) true false attempt "daily" open_runs in
    Refused 200 true 1 (get_job "daily" (daily ∷ [])) true "daily" open_runs run true after
    × (after.attempts ≡ 0)
    × (after.sleeps ≡ [])
execute_started_job-Refused_example =
    execute_started_job-Refused 200 cut_off works 1 (daily ∷ []) true false attempt "daily"
      open_runs run found (inr refl)

run_with_retry-Follows_example :
    Follows 1 daily attempt 1 2 (run_with_retry true 1 daily attempt open_runs)
run_with_retry-Follows_example = run_with_retry-Follows 1 daily attempt open_runs

abbrev no_floats : String → Option ℤ
no_floats s = none

no_field : get "days" end ≡ none
unfolding get
no_field = refl

start_job-StartsOrKeeps_example :
    StartsOrKeeps no_floats 50 9 true "daily"
      (field "days" (int (pos 0)) end)
      "manual"
      (record { jobs = daily ∷ []; runs = [] })
      (start_job no_floats 50 9 true "daily"
        (field "days" (int (pos 0)) end)
        "manual"
        (record { jobs = daily ∷ []; runs = [] }))
start_job-StartsOrKeeps_example =
    start_job-StartsOrKeeps no_floats 50 9 true "daily" (field "days" (int (pos 0)) end) "manual"
      (record { jobs = daily ∷ []; runs = [] }) (no_field, tt)

-- A run is started, and executed to its end.
Reach-IsConsistent_example :
    All IsConsistent
      (execute_started_job 200 works works 9
        (daily ∷ [])
        true
        true
        attempt
        "daily"
        (start_job no_floats 50 9 true "daily"
          (field "days" (int (pos 0)) end)
          "manual"
          (record { jobs = daily ∷ []; runs = [] })).1.runs).runs
Reach-IsConsistent_example = Reach-IsConsistent (
    next
      (next here
        (starts no_floats 50 9 true "daily" (field "days" (int (pos 0)) end) "manual" (daily ∷ [])))
      (executes 200 works works 9 (daily ∷ []) true true attempt "daily"))

unique : Unique 120 1 "job_cancelled" "by user" open_runs
unfolding get_run
unique = (λ e. refl, tt)

finish_run-after_cancel_example :
    let mid = cancel_run_record 120 1 "job_cancelled" "by user" open_runs in
    let final = finish_run 200 works 1 success 7 none none (some end) mid.1 in
    (mid.0 ≡ some (cancelled_row 120 "job_cancelled" "by user" run))
    × (get_run 1 final.1
        ≡ some (record run {
          status = success;
          affected_rows = 7;
          finished_at = some 200;
          error_code = none;
          error_message = none;
          result_summary = end;
        }))
finish_run-after_cancel_example =
    finish_run-after_cancel 120 200 1 7 "job_cancelled" "by user" works end open_runs run unique
      found refl refl
