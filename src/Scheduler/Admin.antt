-- ===== src/Scheduler/Admin.antt =====
-- python-back/app/modules/scheduler_center/service.py and validation.py: how jobs are created and changed.
-- Whether the timer library accepts a rewritten expression is an argument.
pub mod Checked
use stock_center.Base.{
  ℕ, Bool, true, false, not, Option, none, some, List, [], ◌∷◌, if◌then◌else◌, ◌&&◌, String, str_eq,
}
use stock_center.Base.Int.{ℤ}
use stock_center.Base.Text.{Text}
use stock_center.Base.Json.{Fields, end}
use stock_center.Scheduler.Cron.{ok, cron_validation_error, normalize_crontab_for_apscheduler}
use stock_center.Scheduler.Payload.{Outcome, accepted, bound_not_a_number, validate_payload}
use stock_center.Scheduler.Store.{
  SchedulerJob, Assignment, assign_all, get_job, upsert_job, update_job, delete_job,
  set_job_enabled,
}
use stock_center.Scheduler.Service.{legacy_unknown}

-- What a change of a job comes to.
pub data Saved : Type 0 where
  saved : Option SchedulerJob → Saved
  no_job : Saved
  invalid_cron_expr : Saved
  invalid_job_payload : Outcome → Saved

module _ (float_text : String → Option ℤ) (parses : Text → Bool) where
  -- validate_cron_expr: true where it raises nothing.
  unfoldable pub validate_cron_expr : Option Text → String → Bool
  unfolding normalize_crontab_for_apscheduler
  validate_cron_expr cron_expr timezone =
      if str_eq timezone "Asia/Shanghai"
      then elim cron_expr [
        | none ↦ true
        | some expr ↦ elim (normalize_crontab_for_apscheduler expr) [
          | ok rewritten ↦ parses rewritten
          | cron_validation_error ↦ false
        ]
      ]
      else false

  abbrev pub or_default_zone : String → String
  or_default_zone timezone = if str_eq timezone "" then "Asia/Shanghai" else timezone

  abbrev pub verdict_of : Outcome → Option Saved
  verdict_of accepted = none
  verdict_of o = some (invalid_job_payload o)

  -- _validate_job_configuration of the job as it would be, `old_payload` being the default payload of
  -- the job as it is; `none` where it raises nothing.
  unfoldable pub validate_job_configuration : Fields → SchedulerJob → Option Saved
  unfolding validate_cron_expr validate_payload legacy_unknown
  validate_job_configuration old_payload job =
      if validate_cron_expr job.cron_expr (or_default_zone job.timezone)
      then verdict_of (
          validate_payload float_text job.default_payload job.parameter_schema
            (legacy_unknown job.parameter_schema old_payload))
      else some invalid_cron_expr

  -- A new job is no system job.
  unfoldable pub create_or_update_job :
      ℕ → SchedulerJob → List SchedulerJob → Saved × List SchedulerJob
  unfolding validate_job_configuration upsert_job get_job
  create_or_update_job now payload jobs =
      let values = record payload { is_system = false } in
      let jobs' = upsert_job values now jobs in
      elim (validate_job_configuration end values) [
        | some error ↦ (error, jobs)
        | none ↦ (saved (get_job values.job_code jobs'), jobs')
      ]

  unfoldable pub change_job :
      ℕ → String → List Assignment → List SchedulerJob → Saved × List SchedulerJob
  unfolding validate_job_configuration update_job get_job
  change_job now job_code values jobs = elim (get_job job_code jobs) [
    | none ↦ (no_job, jobs)
    | some existing ↦
        let (row, jobs') = update_job job_code values now jobs in
        elim (validate_job_configuration existing.default_payload (assign_all values existing)) [
          | some error ↦ (error, jobs)
          | none ↦ (saved row, jobs')
        ]
  ]
