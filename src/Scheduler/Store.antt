-- ===== src/Scheduler/Store.antt =====
-- python-back/app/modules/scheduler_center/models.py and repository.py: the tables of jobs and of
-- runs, and the statements of SchedulerRepository that read and change them. A table is the list
-- of its rows; a statement that stamps a time takes it as `now`. Times are natural numbers.
pub mod Rows
pub mod Runs
pub mod Jobs
use stock_center.Base.{
  ℕ, zero, suc, ◌+◌, ◌-◌, ◌*◌, ◌/◌, ◌%◌, ◌≤◌, ◌<◌, ◌≡◌, ◌≢◌, ◌↔◌, refl, ap, sym, Bool, true, false,
  not, Option, none, some, List, [], ◌∷◌, ◌++◌, map, arith, ltb, leb, ◌==◌, ==_iff, if◌then◌else◌,
  length, get_elem?, All, All-append, All-map_of, Bool-cases, Option-cases, inl, inr, ◌⊎◌, ◌∙◌, max,
  min, ◌&&◌, ◌||◌, ltb→lt, lt→ltb, leb→le, String, str_eq, eq_iff, any, select, length-append,
}
use stock_center.Base.Json.{Fields, end}
use stock_center.Base.Text.{Text}

-- JobStatus of schemas.py.
pub data RunStatus : Type 0 where
  queued running success failed timeout cancelled skipped : RunStatus

abbrev pub is_running : RunStatus → Bool
is_running running = true
is_running _ = false

pub record SchedulerJob : Type 0 where
  pub job_code : String
  pub job_name : String
  pub job_type : String
  pub description : Option String
  pub parameter_schema : Fields
  pub trigger_type : String
  pub cron_expr : Option Text
  pub timezone : String
  pub default_payload : Fields
  pub max_instances : ℕ
  pub misfire_grace_seconds : ℕ
  pub timeout_seconds : Option ℕ
  pub retry_count : ℕ
  pub retry_interval_seconds : ℕ
  pub next_run_at : Option ℕ
  pub last_run_at : Option ℕ
  pub is_enabled : Bool
  pub is_system : Bool
  pub is_hidden : Bool
  pub metadata : Fields
  pub updated_at : ℕ

-- An error message: a text, or one of the code's f-strings with its argument.
pub data Message : Type 0 where
  text : String → Message
  job_not_found job_handler_not_found job_already_running : String → Message
  job_run_not_found : ℕ → Message

-- `run_id`, a uuid in hexadecimal, is the number that it spells.
pub record SchedulerJobRun : Type 0 where
  pub run_id : ℕ
  pub job_code : String
  pub trigger_source : String
  pub status : RunStatus
  pub payload : Fields
  pub affected_rows : ℕ
  pub started_at : ℕ
  pub finished_at : Option ℕ
  pub error_code : Option String
  pub error_message : Option Message
  pub result_summary : Fields

-- The first row that passes a test, and the update of every row that does.
unfoldable pub find {ℓ} : {A : Type ℓ} → (A → Bool) → List A → Option A
find p [] = none
find p (x ∷ xs) = let rest = find p xs in if p x then some x else rest

unfoldable pub update_where {ℓ} : {A : Type ℓ} → (A → Bool) → (A → A) → List A → List A
update_where p f [] = []
update_where p f (x ∷ xs) = (if p x then f x else x) ∷ update_where p f xs

unfoldable pub count_where {ℓ} : {A : Type ℓ} → (A → Bool) → List A → ℕ
count_where p [] = 0
count_where p (x ∷ xs) = (if p x then 1 else 0) + count_where p xs

abbrev pub job_is : String → SchedulerJob → Bool
job_is code j = str_eq j.job_code code

abbrev pub run_is : ℕ → SchedulerJobRun → Bool
run_is id r = r.run_id == id

unfoldable pub get_job : String → List SchedulerJob → Option SchedulerJob
unfolding find
get_job job_code jobs = find (job_is job_code) jobs

abbrev pub is_some_text : Option Text → Bool
is_some_text none = false
is_some_text (some t) = true

-- Rows are kept in the order of `job_code`, which is the statement's order.
unfoldable pub list_enabled_cron_jobs : List SchedulerJob → List SchedulerJob
unfolding select
list_enabled_cron_jobs jobs =
    select (λ j. j.is_enabled && (str_eq j.trigger_type "cron" && is_some_text j.cron_expr)) jobs

-- What ON CONFLICT (job_code) DO UPDATE sets: not `is_system`, and no run time.
abbrev pub conflict_update : SchedulerJob → ℕ → SchedulerJob → SchedulerJob
conflict_update v now old = record old {
  job_name = v.job_name;
  job_type = v.job_type;
  description = v.description;
  parameter_schema = v.parameter_schema;
  trigger_type = v.trigger_type;
  cron_expr = v.cron_expr;
  timezone = v.timezone;
  default_payload = v.default_payload;
  max_instances = v.max_instances;
  misfire_grace_seconds = v.misfire_grace_seconds;
  timeout_seconds = v.timeout_seconds;
  retry_count = v.retry_count;
  retry_interval_seconds = v.retry_interval_seconds;
  is_enabled = v.is_enabled;
  is_hidden = v.is_hidden;
  metadata = v.metadata;
  updated_at = now;
}

unfoldable pub upsert_job : SchedulerJob → ℕ → List SchedulerJob → List SchedulerJob
unfolding find update_where
upsert_job v now jobs = elim (find (job_is v.job_code) jobs) [
  | none ↦ jobs ++ record v { updated_at = now } ∷ []
  | some old ↦ update_where (job_is v.job_code) (conflict_update v now) jobs
]

-- One column of SchedulerJobUpdate that the caller sets.
pub data Assignment : Type 0 where
  job_name job_type trigger_type timezone : String → Assignment
  description : Option String → Assignment
  parameter_schema default_payload metadata : Fields → Assignment
  cron_expr : Option Text → Assignment
  max_instances misfire_grace_seconds retry_count retry_interval_seconds : ℕ → Assignment
  timeout_seconds : Option ℕ → Assignment
  is_enabled is_hidden : Bool → Assignment

abbrev pub assign : Assignment → SchedulerJob → SchedulerJob
assign (job_name x) j = record j { job_name = x }
assign (job_type x) j = record j { job_type = x }
assign (trigger_type x) j = record j { trigger_type = x }
assign (timezone x) j = record j { timezone = x }
assign (description x) j = record j { description = x }
assign (parameter_schema x) j = record j { parameter_schema = x }
assign (default_payload x) j = record j { default_payload = x }
assign (metadata x) j = record j { metadata = x }
assign (cron_expr x) j = record j { cron_expr = x }
assign (max_instances x) j = record j { max_instances = x }
assign (misfire_grace_seconds x) j = record j { misfire_grace_seconds = x }
assign (retry_count x) j = record j { retry_count = x }
assign (retry_interval_seconds x) j = record j { retry_interval_seconds = x }
assign (timeout_seconds x) j = record j { timeout_seconds = x }
assign (is_enabled x) j = record j { is_enabled = x }
assign (is_hidden x) j = record j { is_hidden = x }

abbrev pub assign_all : List Assignment → SchedulerJob → SchedulerJob
assign_all [] j = j
assign_all (a ∷ as') j = assign_all as' (assign a j)

unfoldable pub update_job :
    String → List Assignment → ℕ → List SchedulerJob → Option SchedulerJob × List SchedulerJob
unfolding get_job update_where
update_job job_code [] now jobs = (get_job job_code jobs, jobs)
update_job job_code (a ∷ values) now jobs =
    let jobs' =
      update_where (job_is job_code) (λ j. record (assign_all (a ∷ values) j) { updated_at = now })
        jobs in
    (get_job job_code jobs', jobs')

-- The deleted row, and the table without it: a system job is not deleted.
unfoldable pub delete_job : String → List SchedulerJob → Option SchedulerJob × List SchedulerJob
unfolding find select
delete_job job_code jobs =
    let doomed = λ (j : SchedulerJob). job_is job_code j && not j.is_system in
    (find doomed jobs, select (λ j. not (doomed j)) jobs)

unfoldable pub set_job_enabled :
    String → Bool → ℕ → List SchedulerJob → Option SchedulerJob × List SchedulerJob
unfolding find update_where
set_job_enabled job_code enabled now jobs =
    let jobs' =
      update_where (job_is job_code)
        (λ j. record j {
          is_enabled = enabled;
          updated_at = now;
          next_run_at = if enabled then j.next_run_at else none;
        })
        jobs in
    (find (job_is job_code) jobs', jobs')

unfoldable pub clear_all_next_run_at : ℕ → List SchedulerJob → List SchedulerJob
unfolding update_where
clear_all_next_run_at now jobs =
    update_where (λ j. true) (λ j. record j { next_run_at = none; updated_at = now }) jobs

-- An argument that is left at _UNSET, or a value that may be None.
pub data Setting : Type 0 where
  unset : Setting
  to : Option ℕ → Setting

abbrev pub set_to : Setting → Option ℕ → Option ℕ
set_to unset old = old
set_to (to new) old = new

unfoldable pub update_job_runtime :
    String → Setting → Setting → ℕ → List SchedulerJob → List SchedulerJob
unfolding update_where
update_job_runtime job_code next_run_at last_run_at now jobs =
    update_where (job_is job_code)
      (λ j. record j {
        next_run_at = set_to next_run_at j.next_run_at;
        last_run_at = set_to last_run_at j.last_run_at;
        updated_at = now;
      })
      jobs

unfoldable pub record_run : SchedulerJobRun → List SchedulerJobRun → List SchedulerJobRun
record_run r runs = runs ++ r ∷ []

unfoldable pub get_run : ℕ → List SchedulerJobRun → Option SchedulerJobRun
unfolding find
get_run run_id runs = find (run_is run_id) runs

-- The row after the update, and the table.
unfoldable pub update_run :
    ℕ
    → (SchedulerJobRun → SchedulerJobRun)
    → List SchedulerJobRun
    → Option SchedulerJobRun × List SchedulerJobRun
unfolding get_run update_where
update_run run_id values runs =
    let runs' = update_where (run_is run_id) values runs in (get_run run_id runs', runs')

unfoldable pub cancel_running_run :
    ℕ → String → String → ℕ → List SchedulerJobRun → Option SchedulerJobRun × List SchedulerJobRun
unfolding find update_where
cancel_running_run run_id error_code error_message now runs =
    let matches = λ (r : SchedulerJobRun). run_is run_id r && is_running r.status in
    let cancel = λ (r : SchedulerJobRun). record r {
      status = cancelled;
      finished_at = some now;
      error_code = some error_code;
      error_message = some (text error_message);
    } in
    let runs' = update_where matches cancel runs in
    (elim (find matches runs) [ none ↦ none | some r ↦ some (cancel r) ], runs')

-- The number of rows changed, and the table.
unfoldable pub mark_orphaned_running_runs :
    String → String → ℕ → List SchedulerJobRun → ℕ × List SchedulerJobRun
unfolding update_where count_where
mark_orphaned_running_runs error_code error_message now runs = (
  count_where (λ r. is_running r.status) runs,
  update_where (λ r. is_running r.status)
      (λ r. record r {
        status = failed;
        finished_at = some now;
        error_code = some error_code;
        error_message = some (text error_message);
      })
      runs,
)
