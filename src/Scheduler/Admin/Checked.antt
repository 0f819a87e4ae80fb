-- ===== src/Scheduler/Admin/Checked.antt =====
-- Only valid configurations of jobs are stored.
use stock_center.Base.{
  ℕ, ◌≡◌, refl, Bool, true, Option, none, some, List, Bool-cases, inl, inr, ◌⊎◌, String,
}
use stock_center.Base.Int.{ℤ}
use stock_center.Base.Text.{Text}
use stock_center.Base.Json.{Fields}
use stock_center.Scheduler.Payload.{Outcome, accepted, validate_payload}
use stock_center.Scheduler.Payload.Spec.{AllKnown, EntriesOk}
use stock_center.Scheduler.Payload.Accepts.{validate_payload_iff}
use stock_center.Scheduler.Store.{SchedulerJob, Assignment, assign_all, get_job, update_job}
use stock_center.Scheduler.Service.{legacy_unknown}
use stock_center.Scheduler.Admin.{
  Saved, saved, invalid_cron_expr, verdict_of, validate_cron_expr, or_default_zone,
  validate_job_configuration, change_job,
}

module _ (float_text : String → Option ℤ) (parses : Text → Bool) where
  -- The expression is one that the timer takes, and the defaults meet the schema, but for keys that the
  -- old defaults had outside it.
  pub record Valid (old_payload : Fields) (job : SchedulerJob) : Type 0 where
    pub cron :
        validate_cron_expr float_text parses job.cron_expr
          (or_default_zone float_text parses job.timezone)
        ≡ true
    pub known :
        AllKnown job.parameter_schema
          (legacy_unknown job.parameter_schema old_payload)
          job.default_payload
    pub entries : EntriesOk float_text job.default_payload job.parameter_schema

  validate_job_configuration-Valid :
      (old_payload : Fields) (job : SchedulerJob)
      → validate_job_configuration float_text parses old_payload job ≡ none
      → Valid old_payload job
  unfolding validate_job_configuration
  validate_job_configuration-Valid old_payload job h =
      elim (Bool-cases (
        validate_cron_expr float_text parses job.cron_expr
          (or_default_zone float_text parses job.timezone))) [
            | inl e ↦
                checked e
                  (validate_payload float_text job.default_payload job.parameter_schema
                    (legacy_unknown job.parameter_schema old_payload))
                  refl (rw (e) at h)
            | inr e ↦ absurd (let k : some invalid_cron_expr ≡ none = rw (e) at h in cc)
          ]
    where
      checked :
          validate_cron_expr float_text parses job.cron_expr
              (or_default_zone float_text parses job.timezone)
            ≡ true
          → (o : Outcome)
          → validate_payload float_text job.default_payload job.parameter_schema
              (legacy_unknown job.parameter_schema old_payload)
            ≡ o
          → verdict_of float_text parses o ≡ none
          → Valid old_payload job
      checked e accepted q k =
          let (known, entries) =
            (validate_payload_iff float_text job.default_payload job.parameter_schema
                (legacy_unknown job.parameter_schema old_payload)).0
              q in
          record { cron = e; known = known; entries = entries }
      checked e _ q k = cc

  -- A change of a job is stored only when the job exists and would be valid after it; otherwise it is
  -- refused and the table stays as it was.
  pub change_job-Valid :
      (now : ℕ) (job_code : String) (values : List Assignment) (jobs : List SchedulerJob)
      → let after = change_job float_text parses now job_code values jobs in
        ((existing : SchedulerJob) × (get_job job_code jobs ≡ some existing)
          × Valid existing.default_payload (assign_all values existing)
          × (after ≡ (
            saved (update_job job_code values now jobs).0,
            (update_job job_code values now jobs).1,
          )))
        ⊎ (after.1 ≡ jobs)
  unfolding change_job
  change_job-Valid now job_code values jobs = go (get_job job_code jobs) refl
    where
      Goal : Type 0
      Goal =
          let after = change_job float_text parses now job_code values jobs in
          ((existing : SchedulerJob) × (get_job job_code jobs ≡ some existing)
            × Valid existing.default_payload (assign_all values existing)
            × (after ≡ (
              saved (update_job job_code values now jobs).0,
              (update_job job_code values now jobs).1,
            )))
          ⊎ (after.1 ≡ jobs)

      with_verdict :
          (existing : SchedulerJob)
          → get_job job_code jobs ≡ some existing
          → (o : Option Saved)
          → validate_job_configuration float_text parses existing.default_payload
              (assign_all values existing)
            ≡ o
          → Goal
      with_verdict existing e (some error) q = inr (rw (e, change_job) (rw (q) refl))
      with_verdict existing e none q = inl (
        existing,
        e,
        validate_job_configuration-Valid existing.default_payload (assign_all values existing) q,
        rw (e, change_job) (rw (q) refl),
      )

      go : (o : Option SchedulerJob) → get_job job_code jobs ≡ o → Goal
      go none e = inr (rw (e, change_job) refl)
      go (some existing) e = with_verdict existing e _ refl
