-- ===== src/Scheduler/Runtime.antt =====
-- python-back/app/modules/scheduler_center/runtime.py: SchedulerRuntime, the tasks that run in the background
-- and the jobs that are registered with the timer library. Whether a task is done, whether a job's
-- expression can be registered and when it fires next, whether the database answers, and the clock
-- are arguments or part of the state.
pub mod Tasks
pub mod Reload
pub mod Timed
use stock_center.Base.{
  ℕ, zero, suc, ◌+◌, Bool, true, false, not, Option, none, some, List, [], ◌∷◌, ◌++◌, ◌==◌,
  if◌then◌else◌, ◌&&◌, ◌||◌, String, str_eq, select, any,
}
use stock_center.Base.Int.{ℤ}
use stock_center.Base.Json.{Fields}
use stock_center.Scheduler.Store.{
  SchedulerJob, SchedulerJobRun, find, update_where, get_job, list_enabled_cron_jobs,
  clear_all_next_run_at, mark_orphaned_running_runs, update_job_runtime, unset, to,
}
use stock_center.Scheduler.Execution.{Attempt, Faults, execute_started_job}
use stock_center.Scheduler.Service.{Started, started, Tables, start_job}

-- `done` is what the task answers to `task.done()`.
pub record ActiveRunTask : Type 0 where
  pub run_id : ℕ
  pub job_code : String
  pub started_at : ℕ
  pub cancel_requested : Bool
  pub done : Bool

-- A job at the timer library, and when it fires next.
pub record RegisteredJob : Type 0 where
  pub job_code : String
  pub next_run_time : Option ℕ

pub data RuntimeError : Type 0 where
  not_registered : String → RuntimeError
  reload_failed not_installed startup_reload_failed : RuntimeError

-- `scheduler` is the registered jobs, `none` for no scheduler.
pub record SchedulerRuntime : Type 0 where
  pub scheduler : Option (List RegisteredJob)
  pub error : Option RuntimeError
  pub active_tasks : List ActiveRunTask

abbrev pub task_is : ℕ → ActiveRunTask → Bool
task_is run_id a = a.run_id == run_id

-- _track_task: the dict's entry is replaced, or a new one goes to the end.
unfoldable pub put_task : ActiveRunTask → List ActiveRunTask → List ActiveRunTask
put_task a [] = a ∷ []
put_task a (b ∷ bs) = let rest = put_task a bs in if task_is a.run_id b then a ∷ bs else b ∷ rest

unfoldable pub track_task : ℕ → ℕ → String → SchedulerRuntime → SchedulerRuntime
unfolding put_task
track_task now run_id job_code rt = record rt {
  active_tasks =
      put_task
        (record {
          run_id = run_id;
          job_code = job_code;
          started_at = now;
          cancel_requested = false;
          done = false;
        })
        rt.active_tasks;
}

-- start_background_execution: the task is created and tracked.
unfoldable pub start_background_execution : ℕ → ℕ → String → SchedulerRuntime → SchedulerRuntime
unfolding track_task
start_background_execution now run_id job_code rt = track_task now run_id job_code rt

-- `self._active_tasks.pop(run_id, None)`, when a task is over.
unfoldable pub pop_task : ℕ → SchedulerRuntime → SchedulerRuntime
unfolding select
pop_task run_id rt = record rt {
  active_tasks = select (λ a. not (task_is run_id a)) rt.active_tasks;
}

unfoldable pub is_run_active : ℕ → SchedulerRuntime → Bool
unfolding find
is_run_active run_id rt = elim (find (task_is run_id) rt.active_tasks) [
  | none ↦ false
  | some a ↦ not a.done
]

-- cancel_run; the task itself is asked to cancel as well.
unfoldable pub cancel_run : ℕ → SchedulerRuntime → Bool × SchedulerRuntime
unfolding find update_where
cancel_run run_id rt = elim (find (task_is run_id) rt.active_tasks) [
  | none ↦ (false, rt)
  | some a ↦ if a.done then (false, rt) else (
    true,
    record rt {
      active_tasks =
          update_where (task_is run_id) (λ b. record b { cancel_requested = true }) rt.active_tasks;
    },
  )
]

-- stop: every task is asked to cancel, and the timer is shut down.
unfoldable pub stop : SchedulerRuntime → SchedulerRuntime
unfolding update_where
stop rt = record rt {
  scheduler = none;
  active_tasks =
      update_where (λ a. true) (λ b. record b { cancel_requested = true }) rt.active_tasks;
}

-- _active_run_summaries
unfoldable pub active_run_summaries : SchedulerRuntime → List ActiveRunTask
unfolding select
active_run_summaries rt = select (λ a. not a.done) rt.active_tasks

-- The loop of `reload`: `register` is none where a job cannot be registered, and else the time when it
-- fires next, where it does.
pub record Reloading : Type 0 where
  pub registered : List RegisteredJob
  pub failed : Option RuntimeError
  pub jobs : List SchedulerJob

unfoldable pub register_jobs :
    (SchedulerJob → Option (Option ℕ)) → ℕ → List SchedulerJob → Reloading → Reloading
unfolding update_job_runtime
register_jobs register now [] s = s
register_jobs register now (j ∷ js) s = register_jobs register now js (elim (register j) [
  | none ↦ record s { failed = some (not_registered j.job_code) }
  | some next ↦ record s {
    registered = s.registered ++ record { job_code = j.job_code; next_run_time = next } ∷ [];
    jobs = update_job_runtime j.job_code (to next) unset now s.jobs;
  }
])

-- `reload` of a runtime that has a scheduler; when the database fails, the tables stay as they were
-- and the scheduler is shut down.
unfoldable pub reload :
    Bool
    → (SchedulerJob → Option (Option ℕ))
    → ℕ
    → List SchedulerJob
    → SchedulerRuntime
    → SchedulerRuntime × List SchedulerJob
unfolding clear_all_next_run_at list_enabled_cron_jobs register_jobs
reload database_fails register now jobs rt =
    let cleared = clear_all_next_run_at now jobs in
    let s =
      register_jobs register now (list_enabled_cron_jobs cleared)
        (record { registered = []; failed = none; jobs = cleared }) in
    if database_fails
    then (record rt { scheduler = none; error = some reload_failed }, jobs)
    else (record rt { scheduler = some s.registered; error = s.failed }, s.jobs)

-- _run_job, which the timer calls: `next` is when the job fires next, `later` the clock at the end.
unfoldable pub run_job :
    (String → Option ℤ)
    → ℕ
    → ℕ
    → ℕ
    → Faults
    → Faults
    → Bool
    → Bool
    → (ℕ → Attempt)
    → Option ℕ
    → String
    → Tables
    → Tables
unfolding get_job start_job execute_started_job update_job_runtime
run_job float_text now later run_id first second registered locked attempt next job_code t =
    elim (get_job job_code t.jobs) [
      | none ↦ t
      | some job ↦
          if not job.is_enabled
          then t
          else (let (outcome, t') =
                start_job float_text now run_id registered job_code job.default_payload "cron" t in
              let runs : List SchedulerJobRun = elim outcome [
                | started run ↦
                    (execute_started_job later first second run_id t'.jobs registered locked attempt
                      job_code t'.runs).runs
                | _ ↦ t'.runs
              ] in
              record {
                jobs = update_job_runtime job_code (to next) (to (some later)) later t'.jobs;
                runs = runs;
              })
    ]

-- mark_orphaned_running_runs of the runtime.
unfoldable pub sweep_orphans : ℕ → List SchedulerJobRun → ℕ × List SchedulerJobRun
unfolding mark_orphaned_running_runs
sweep_orphans now runs =
    mark_orphaned_running_runs "scheduler_orphaned_after_restart"
      "application restarted while this scheduler run was still marked running" now runs

-- `start`, where `installed` is whether the timer library is there: the sweep and a reload, after which
-- any error leaves no scheduler.
unfoldable pub start :
    Bool
    → Bool
    → Bool
    → (SchedulerJob → Option (Option ℕ))
    → ℕ
    → Tables
    → SchedulerRuntime
    → SchedulerRuntime × Tables
unfolding sweep_orphans reload
start installed sweep_fails database_fails register now t rt =
    if installed
    then elim rt.scheduler [
      | some regs ↦ (rt, t)
      | none ↦
          let fresh = record rt { scheduler = some []; error = none } in
          let runs = (sweep_orphans now t.runs).1 in
          let (loaded, jobs) = reload database_fails register now t.jobs fresh in
          if sweep_fails
          then (record rt { scheduler = none; error = some startup_reload_failed }, t)
          else (
            elim loaded.error [ none ↦ loaded | some e ↦ record loaded { scheduler = none } ],
            record { jobs = jobs; runs = runs },
          )
    ]
    else (record rt { error = some not_installed }, t)

-- _execute_job_task: the run is executed, and its task is no longer tracked.
unfoldable pub execute_job_task :
    ℕ
    → Faults
    → Faults
    → ℕ
    → Bool
    → Bool
    → (ℕ → Attempt)
    → String
    → Tables
    → SchedulerRuntime
    → SchedulerRuntime × Tables
unfolding execute_started_job pop_task
execute_job_task now first second run_id registered locked attempt job_code t rt = (
  pop_task run_id rt,
  record t {
    runs =
        (execute_started_job now first second run_id t.jobs registered locked attempt job_code
          t.runs).runs;
  },
)
