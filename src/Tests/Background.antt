-- ===== src/Tests/Background.antt =====
-- Examples for the scheduler's runtime.
use stock_center.Base.{ℕ, ◌≡◌, refl, true, false, none, some, [], ◌∷◌}
use stock_center.Base.Json.{get, merge}
use stock_center.Base.Json.Laws.{Distinct}
use stock_center.Scheduler.Store.{
  SchedulerJobRun, get_job, get_run, update_job_runtime, record_run, unset, to,
}
use stock_center.Scheduler.Execution.{Attempt, is_cancelled, Faults}
use stock_center.Scheduler.Service.{started, Tables, new_run, start_job}
use stock_center.Scheduler.Runtime.Timed.{Ended, run_job-Ended}
use stock_center.Scheduler.Runtime.{run_job}
use stock_center.Tests.Schedules.{daily, payload, no_floats}

abbrev tables : Tables
tables = record { jobs = daily ∷ []; runs = [] }

abbrev run : SchedulerJobRun
run = new_run 50 9 "daily" "cron" (merge payload payload)

abbrev started_tables : Tables
started_tables = record {
  jobs = update_job_runtime "daily" unset (to (some 50)) 50 (daily ∷ []);
  runs = record_run run [];
}

begins : start_job no_floats 50 9 true "daily" payload "cron" tables ≡ (started run, started_tables)
unfolding start_job
begins = refl

daily_found : get_job "daily" (daily ∷ []) ≡ some daily
unfolding get_job
daily_found = refl

no_run : get_run 9 [] ≡ none
unfolding get_run
no_run = refl

payload-Distinct : Distinct payload
unfolding get
payload-Distinct = (refl, (refl, tt))

abbrev works : Faults
works = record { read_fails = false; update_fails = false; fresh_fails = false }

abbrev late : ℕ → Attempt
late n = record { progress = []; seconds = 11; ending = is_cancelled; cancelled_in_pause = false }

run_job-Ended_example :
    Ended 70 9 (run_job no_floats 50 70 9 works works true true late (some 99) "daily" tables).runs
run_job-Ended_example =
    run_job-Ended no_floats 50 70 9 works works true true late (some 99) "daily" tables
      started_tables daily run daily_found refl payload-Distinct no_run begins refl
