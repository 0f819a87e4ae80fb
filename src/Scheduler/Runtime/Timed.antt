-- ===== src/Scheduler/Runtime/Timed.antt =====
-- What the timer's call of a job leaves.
use stock_center.Base.{
  ℕ, ◌≡◌, refl, ap, ◌∙◌, Bool, true, false, Option, none, some, List, [], ◌∷◌, ◌++◌, arith, ==_iff,
  ◌&&◌, inr, String,
}
use mathlib.Core.Path.{subst}
use stock_center.Base.Int.{ℤ}
use stock_center.Base.Json.Laws.{Distinct}
use stock_center.Scheduler.Store.{
  SchedulerJob, SchedulerJobRun, running, run_is, job_is, get_run, get_job, update_job_runtime,
  Setting, set_to, unset, to,
}
use stock_center.Scheduler.Store.Rows.{find-update_where_self}
use stock_center.Scheduler.Execution.{Attempt, Faults, execute_started_job}
use stock_center.Scheduler.Service.{started, Tables, start_job}
use stock_center.Scheduler.Service.Start.{DidStart, StartsOrKeeps, start_job-StartsOrKeeps}
use stock_center.Scheduler.Service.Execute.Written.{is_terminal}
use stock_center.Scheduler.Service.Execute.Unlocked.{refused_row, refused-Wrote}
use stock_center.Scheduler.Service.Execute.{execute_started_job-Wrote}
use stock_center.Scheduler.Runtime.{run_job}

get_run-record_run :
    (run_id : ℕ) (runs : List SchedulerJobRun) (r : SchedulerJobRun)
    → get_run run_id runs ≡ none
    → run_is run_id r ≡ true
    → get_run run_id (runs ++ r ∷ []) ≡ some r
unfolding get_run
get_run-record_run run_id [] r h k = rw (k) refl
get_run-record_run run_id (s ∷ ss) r h k = ground (arith, get_run-record_run run_id ss r)

get_job-update_job_runtime :
    (code : String) (a b : Setting) (now : ℕ) (jobs : List SchedulerJob) (job : SchedulerJob)
    → get_job code jobs ≡ some job
    → (after : SchedulerJob) × (get_job code (update_job_runtime code a b now jobs) ≡ some after)
unfolding get_job update_job_runtime
get_job-update_job_runtime code a b now jobs job h =
    let stamp = λ (j : SchedulerJob). record j {
      next_run_at = set_to a j.next_run_at;
      last_run_at = set_to b j.last_run_at;
      updated_at = now;
    } in
    (stamp job, find-update_where_self (job_is code) stamp (λ j. refl) jobs ∙ rw (h) refl)

refused_row-terminal :
    (now : ℕ) (fails : Bool) (o : Option SchedulerJob) (reg : Bool) (code : String)
    (r : SchedulerJobRun)
    → (is_terminal (refused_row now fails o reg code r).status ≡ true)
      × ((refused_row now fails o reg code r).finished_at ≡ some now)
refused_row-terminal now fails none reg code r = (refl, refl)
refused_row-terminal now fails (some j) false code r = (refl, refl)
refused_row-terminal now fails (some j) true code r = (refl, refl)

abbrev pub Ended : ℕ → ℕ → List SchedulerJobRun → Type 0
Ended later run_id runs =
    (row : SchedulerJobRun) × (get_run run_id runs ≡ some row)
    × (is_terminal row.status ≡ true)
    × (row.finished_at ≡ some later)

execute-Ended :
    (later : ℕ) (first second : Faults) (run_id : ℕ) (jobs : List SchedulerJob) (locked : Bool)
    (attempt : ℕ → Attempt) (code : String) (runs : List SchedulerJobRun) (job : SchedulerJob)
    (r : SchedulerJobRun)
    → get_job code jobs ≡ some job
    → get_run run_id runs ≡ some r
    → r.status ≡ running
    → (first.update_fails && first.fresh_fails) ≡ false
    → Ended later run_id
        (execute_started_job later first second run_id jobs true locked attempt code runs).runs
execute-Ended later first second run_id jobs true attempt code runs job r found h k works =
    let (summary, row, _, _, ended, finished_at, wrote) =
      execute_started_job-Wrote later first second run_id jobs attempt code runs job r found h
        (rw (k) refl) works in
    (row, wrote.stored, ended, finished_at)
execute-Ended later first second run_id jobs false attempt code runs job r found h k works =
    let (wrote, _, _) =
      refused-Wrote later first second run_id jobs true false attempt code runs r h works
        (inr refl) in
    let (ended, finished_at) =
      refused_row-terminal later first.read_fails (get_job code jobs) true code r in
    (_, wrote.stored, ended, finished_at)

-- When the timer calls an enabled job and its run starts under a fresh id, then, whether another run
-- holds the lock or not and whatever the handler does, the run stands ended in the table, at the
-- time of the end, if the first finish can write.
pub run_job-Ended :
    (float_text : String → Option ℤ) (now later run_id : ℕ) (first second : Faults)
    (registered locked : Bool) (attempt : ℕ → Attempt) (next : Option ℕ) (job_code : String)
    (t t' : Tables) (job : SchedulerJob) (run : SchedulerJobRun)
    → get_job job_code t.jobs ≡ some job
    → job.is_enabled ≡ true
    → Distinct job.default_payload
    → get_run run_id t.runs ≡ none
    → start_job float_text now run_id registered job_code job.default_payload "cron" t
      ≡ (started run, t')
    → (first.update_fails && first.fresh_fails) ≡ false
    → Ended later run_id
        (run_job float_text now later run_id first second registered locked attempt next job_code
          t).runs
unfolding run_job
run_job-Ended float_text now later run_id first second registered locked attempt next job_code t t'
      job run found enabled distinct fresh starts works =
    let d : DidStart float_text now run_id registered job_code job.default_payload "cron" t t' run =
      subst (StartsOrKeeps float_text now run_id registered job_code job.default_payload "cron" t)
        starts
        (start_job-StartsOrKeeps float_text now run_id registered job_code job.default_payload
          "cron" t distinct) in
    let starts' : start_job float_text now run_id true job_code job.default_payload "cron" t
        ≡ (started run, t') =
      rw (d.handler) at starts in
    let is_run : run_is run_id run ≡ true = rw (d.row) ((==_iff run_id run_id).1 refl) in
    let there : get_run run_id t'.runs ≡ some run =
      rw (d.runs) (get_run-record_run run_id t.runs run fresh is_run) in
    let (job', kept) =
      get_job-update_job_runtime job_code unset (to (some now)) now t.jobs job found in
    let found' : get_job job_code t'.jobs ≡ some job' = rw (d.jobs) kept in
    let ended =
      execute-Ended later first second run_id t'.jobs locked attempt job_code t'.runs job' run
        found' there (ap (λ r. r.status) d.row) works in
    rw (found, run_job) (rw (enabled) (rw (starts) (rw (d.handler) (rw (starts') ended))))
