-- ===== src/Scheduler/Service/Start.antt =====
-- When a run starts, and what it starts with.
use stock_center.Base.{
  ℕ, ◌≡◌, ◌↔◌, refl, Bool, true, false, Option, none, some, [], ◌∷◌, ◌++◌, inl, inr, ◌⊎◌, String,
}
use stock_center.Base.Int.{ℤ}
use stock_center.Base.Json.{Fields, get, merge}
use stock_center.Base.Json.Laws.{Distinct, or_else, get-merge}
use stock_center.Scheduler.Payload.{Outcome, accepted, validate_payload}
use stock_center.Scheduler.Payload.Spec.{AllKnown, EntriesOk}
use stock_center.Scheduler.Payload.Accepts.{validate_payload_iff}
use stock_center.Scheduler.Store.{
  SchedulerJob, SchedulerJobRun, get_job, record_run, update_job_runtime, unset, to,
}
use stock_center.Scheduler.Service.{Started, started, new_run, Tables, start_job, legacy_unknown}

-- A start that succeeded: the job is there with a handler, its payload meets the schema, and one
-- run in the state running was added.
pub record DidStart (float_text : String → Option ℤ) (now run_id : ℕ) (registered : Bool)
    (job_code : String) (payload : Fields) (source : String) (t after : Tables)
    (run : SchedulerJobRun) : Type 0 where
  pub job : SchedulerJob
  pub found : get_job job_code t.jobs ≡ some job
  pub handler : registered ≡ true
  pub known :
      AllKnown job.parameter_schema
        (legacy_unknown job.parameter_schema job.default_payload)
        run.payload
  pub entries : EntriesOk float_text run.payload job.parameter_schema
  -- the caller's value of a parameter goes before the job's default
  pub parameters :
      (key : String) → get key run.payload ≡ or_else (get key payload) (get key job.default_payload)
  pub row : run ≡ new_run now run_id job_code source run.payload
  pub runs : after.runs ≡ t.runs ++ run ∷ []
  pub jobs : after.jobs ≡ update_job_runtime job_code unset (to (some now)) now t.jobs

-- What `start_job` does on each verdict about the payload.
abbrev pub StartsOrKeeps :
    (String → Option ℤ)
    → ℕ
    → ℕ
    → Bool
    → String
    → Fields
    → String
    → Tables
    → Started × Tables
    → Type 0
StartsOrKeeps float_text now run_id registered job_code payload source t (started run, after) =
    DidStart float_text now run_id registered job_code payload source t after run
StartsOrKeeps float_text now run_id registered job_code payload source t (_, after) =
    (after ≡ t)
    × ((get_job job_code t.jobs ≡ none)
        ⊎ (registered ≡ false)
        ⊎ ((job : SchedulerJob) × (get_job job_code t.jobs ≡ some job)
            × ¬ (
                AllKnown job.parameter_schema
                  (legacy_unknown job.parameter_schema job.default_payload)
                  (merge job.default_payload payload)
                × EntriesOk float_text (merge job.default_payload payload) job.parameter_schema)))

-- A start either adds exactly one running run, with a payload that meets the job's schema and in
-- which the caller's values go before the defaults, and stamps the job's last run time; or it
-- fails, because the job is missing, has no handler, or would get a payload that does not meet its
-- schema, and leaves both tables as they were.
pub start_job-StartsOrKeeps :
    (float_text : String → Option ℤ) (now run_id : ℕ) (registered : Bool) (job_code : String)
    (payload : Fields) (source : String) (t : Tables)
    → Distinct payload
    → StartsOrKeeps float_text now run_id registered job_code payload source t
        (start_job float_text now run_id registered job_code payload source t)
unfolding start_job record_run
start_job-StartsOrKeeps float_text now run_id registered job_code payload source t distinct =
    with_job (get_job job_code t.jobs) refl registered
  where
    Goal : Bool → Type 0
    Goal reg =
        StartsOrKeeps float_text now run_id reg job_code payload source t
          (start_job float_text now run_id reg job_code payload source t)

    met :
        (job : SchedulerJob)
        → (validate_payload float_text
              (merge job.default_payload payload)
              job.parameter_schema
              (legacy_unknown job.parameter_schema job.default_payload)
            ≡ accepted)
          ↔ (AllKnown job.parameter_schema
                (legacy_unknown job.parameter_schema job.default_payload)
                (merge job.default_payload payload)
              × EntriesOk float_text (merge job.default_payload payload) job.parameter_schema)
    met job =
        validate_payload_iff float_text (merge job.default_payload payload) job.parameter_schema
          (legacy_unknown job.parameter_schema job.default_payload)

    with_verdict :
        (job : SchedulerJob)
        → get_job job_code t.jobs ≡ some job
        → (o : Outcome)
        → validate_payload float_text
            (merge job.default_payload payload)
            job.parameter_schema
            (legacy_unknown job.parameter_schema job.default_payload)
          ≡ o
        → Goal true
    with_verdict job e accepted v =
        let (known, entries) = (met job).0 v in
        rw (e, start_job)
          (rw (v, start_job)
            (record {
              job = job;
              found = e;
              handler = refl;
              known = known;
              entries = entries;
              parameters = λ key. get-merge key job.default_payload payload distinct;
              row = refl;
              runs = refl;
              jobs = refl;
            }))
    with_verdict job e _ v =
        rw (e, start_job) (rw (v, start_job) (refl, inr (inr (job, e, λ m. cc (v, (met job).1 m)))))

    with_job : (o : Option SchedulerJob) → get_job job_code t.jobs ≡ o → (reg : Bool) → Goal reg
    with_job none e reg = rw (e, start_job) (refl, inl e)
    with_job (some job) e false = rw (e, start_job) (refl, inr (inl refl))
    with_job (some job) e true =
        with_verdict job e
          (validate_payload float_text (merge job.default_payload payload) job.parameter_schema
            (legacy_unknown job.parameter_schema job.default_payload))
          refl
