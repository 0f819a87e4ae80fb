-- ===== src/Scheduler/Service/Execute/Unlocked.antt =====
-- What an execution leaves that never calls the handler.
use stock_center.Base.{
  ℕ, ◌≡◌, refl, Bool, true, false, Option, none, some, List, [], arith, inl, inr, ◌⊎◌, ◌&&◌, String,
}
use stock_center.Scheduler.Store.{
  RunStatus, failed, skipped, SchedulerJob, SchedulerJobRun, Message, job_not_found,
  job_handler_not_found, job_already_running, get_job, get_run,
}
use stock_center.Scheduler.Execution.{
  Attempt, Faults, Finished, finished, finish_run, execute_started_job, finish_run, Execution,
  swallowed, returns_none, database_error,
}
use stock_center.Scheduler.Service.Finish.{finished_row, summary_or}
use stock_center.Scheduler.Service.Execute.Written.{Wrote, finish-Wrote}

-- The row that an execution leaves which never calls the handler: the job is gone, it has no
-- handler, or another run holds the lock.
abbrev pub refused_row :
    ℕ → Bool → Option SchedulerJob → Bool → String → SchedulerJobRun → SchedulerJobRun
refused_row now read_fails none registered code r =
    finished_row now failed 0 (some "job_not_found") (some (job_not_found code))
      (summary_or read_fails none r) r
refused_row now read_fails (some job) false code r =
    finished_row now failed 0 (some "job_handler_not_found") (some (job_handler_not_found code))
      (summary_or read_fails none r) r
refused_row now read_fails (some job) true code r =
    finished_row now skipped 0 (some "already_running") (some (job_already_running code))
      (summary_or read_fails none r) r

Wrote-swallowed :
    (run_id : ℕ) (before : List SchedulerJobRun) (row : SchedulerJobRun)
    (u : Finished × List SchedulerJobRun)
    → Wrote run_id before row u
    → Wrote run_id before row (swallowed u)
Wrote-swallowed run_id before row (finished r, runs) w = w
Wrote-swallowed run_id before row (_, runs) w = absurd (ground (arith, w.result))

pub refused-Wrote :
    (now : ℕ) (first second : Faults) (run_id : ℕ) (jobs : List SchedulerJob)
    (registered locked : Bool) (attempt : ℕ → Attempt) (job_code : String)
    (runs : List SchedulerJobRun) (r : SchedulerJobRun)
    → get_run run_id runs ≡ some r
    → (first.update_fails && first.fresh_fails) ≡ false
    → (get_job job_code jobs ≡ none) ⊎ ((registered && locked) ≡ false)
    → let after =
        execute_started_job now first second run_id jobs registered locked attempt job_code runs in
      Wrote run_id runs
        (refused_row now first.read_fails (get_job job_code jobs) registered job_code r)
        (after.result, after.runs)
      × (after.attempts ≡ 0)
      × (after.sleeps ≡ [])
unfolding execute_started_job
refused-Wrote now first second run_id jobs registered locked attempt job_code runs r h works
      refused =
    decided (get_job job_code jobs) refl registered locked refused
  where
    wrote :
        (status : RunStatus) (code : Option String) (message : Option Message)
        → Wrote run_id runs
            (finished_row now status 0 code message (summary_or first.read_fails none r) r)
            (finish_run now first run_id status 0 code message none runs)
    wrote status code message =
        finish-Wrote now first second run_id runs r h works status 0 code message none

    decided :
        (o : Option SchedulerJob)
        → get_job job_code jobs ≡ o
        → (reg lock : Bool) → (get_job job_code jobs ≡ none) ⊎ ((reg && lock) ≡ false)
        → let after =
            execute_started_job now first second run_id jobs reg lock attempt job_code runs in
          Wrote run_id runs
            (refused_row now first.read_fails (get_job job_code jobs) reg job_code r)
            (after.result, after.runs)
          × (after.attempts ≡ 0)
          × (after.sleeps ≡ [])
    decided none e reg lock n =
        rw (e, execute_started_job)
          (wrote failed (some "job_not_found") (some (job_not_found job_code)), refl, refl)
    decided (some job) e false lock n =
        rw (e, execute_started_job)
          (
            wrote failed (some "job_handler_not_found") (some (job_handler_not_found job_code)),
            refl,
            refl,
          )
    decided (some job) e true false n =
        rw (e, execute_started_job)
          (
            Wrote-swallowed run_id runs
                (finished_row now skipped 0 (some "already_running")
                  (some (job_already_running job_code)) (summary_or first.read_fails none r) r)
                (finish_run now first run_id skipped 0 (some "already_running")
                  (some (job_already_running job_code)) none runs)
                (wrote skipped (some "already_running") (some (job_already_running job_code))),
            refl,
            refl,
          )
    decided (some job) e true true n = elim n [ inl q ↦ cc | inr q ↦ cc ]

-- What the caller gets of such an execution when neither session can write the finish.
abbrev pub refused_error : Option SchedulerJob → Bool → Finished
refused_error (some job) true = returns_none
refused_error _ _ = database_error

finish_run-fails :
    (now : ℕ) (faults : Faults) (run_id : ℕ) (status : RunStatus) (code : Option String)
    (message : Option Message) (runs : List SchedulerJobRun)
    → (faults.update_fails && faults.fresh_fails) ≡ true
    → finish_run now faults run_id status 0 code message none runs ≡ (database_error, runs)
unfolding finish_run
finish_run-fails now faults run_id status code message runs e = rw (e) refl

-- What an execution that never calls the handler leaves, by whether the finish fails on both of its
-- sessions.
abbrev pub Refused :
    ℕ
    → Bool
    → ℕ
    → Option SchedulerJob
    → Bool
    → String
    → List SchedulerJobRun
    → SchedulerJobRun
    → Bool
    → Execution
    → Type 0
Refused now read_fails run_id job registered code runs r false after =
    Wrote run_id runs (refused_row now read_fails job registered code r) (after.result, after.runs)
Refused now read_fails run_id job registered code runs r true after =
    (after.result ≡ refused_error job registered) × (after.runs ≡ runs)

pub refused-fails :
    (now : ℕ) (first second : Faults) (run_id : ℕ) (jobs : List SchedulerJob)
    (registered locked : Bool) (attempt : ℕ → Attempt) (job_code : String)
    (runs : List SchedulerJobRun)
    → (first.update_fails && first.fresh_fails) ≡ true
    → (get_job job_code jobs ≡ none) ⊎ ((registered && locked) ≡ false)
    → let after =
        execute_started_job now first second run_id jobs registered locked attempt job_code runs in
      (after.result ≡ refused_error (get_job job_code jobs) registered)
      × (after.runs ≡ runs)
      × (after.attempts ≡ 0)
      × (after.sleeps ≡ [])
unfolding execute_started_job
refused-fails now first second run_id jobs registered locked attempt job_code runs fails refused =
    decided (get_job job_code jobs) refl registered locked refused
  where
    decided :
        (o : Option SchedulerJob)
        → get_job job_code jobs ≡ o
        → (reg lock : Bool) → (get_job job_code jobs ≡ none) ⊎ ((reg && lock) ≡ false)
        → let after =
            execute_started_job now first second run_id jobs reg lock attempt job_code runs in
          (after.result ≡ refused_error (get_job job_code jobs) reg)
          × (after.runs ≡ runs)
          × (after.attempts ≡ 0)
          × (after.sleeps ≡ [])
    decided none e reg lock n =
        rw (e, execute_started_job)
          (rw
            (finish_run-fails now first run_id failed (some "job_not_found")
              (some (job_not_found job_code)) runs fails)
            (refl, refl, refl, refl))
    decided (some job) e false lock n =
        rw (e, execute_started_job)
          (rw
            (finish_run-fails now first run_id failed (some "job_handler_not_found")
              (some (job_handler_not_found job_code)) runs fails)
            (refl, refl, refl, refl))
    decided (some job) e true false n =
        rw (e, execute_started_job)
          (rw
            (finish_run-fails now first run_id skipped (some "already_running")
              (some (job_already_running job_code)) runs fails)
            (refl, refl, refl, refl))
    decided (some job) e true true n = elim n [ inl q ↦ cc | inr q ↦ cc ]
