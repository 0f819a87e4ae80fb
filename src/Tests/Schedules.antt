-- ===== src/Tests/Schedules.antt =====
-- Examples for cron expressions, payloads and the table of jobs.
use stock_center.Base.{◌≡◌, ◌↔◌, [], some, none, Option, true, false, arith, String}
use stock_center.Base.Int.{ℤ, pos}
use stock_center.Base.Text.{codes}
use stock_center.Base.Json.{bool, int, str, arr, obj, nil, cons, Fields, end, field}
use stock_center.Scheduler.Cron.{expand_crontab_weekday_range}
use stock_center.Scheduler.Cron.Days.{names_of, cyclic_days, expand-cyclic_days}
use stock_center.Scheduler.Payload.{accepted, validate_payload}
use stock_center.Scheduler.Payload.Spec.{AllKnown, EntriesOk}
use stock_center.Scheduler.Payload.Accepts.{validate_payload_iff}
use stock_center.Scheduler.Store.{SchedulerJob}

expand-cyclic_days_example : expand_crontab_weekday_range 5 7 2 ≡ names_of (cyclic_days 5 7 2)
expand-cyclic_days_example = expand-cyclic_days 5 7 2 (omega arith) (omega arith) (omega arith)

-- A schema with a required bounded integer and a text with options.
abbrev schema : Fields
schema =
    field "days"
      (obj (
        field "type" (str "integer")
          (field "required" (bool true) (field "min" (int (pos 1)) end))))
      (field "mode"
        (obj (field "type" (str "string") (field "options" (arr (cons (str "fast") nil)) end))) end)

abbrev pub payload : Fields
payload = field "days" (int (pos 5)) (field "mode" (str "fast") end)

abbrev pub no_floats : String → Option ℤ
no_floats s = none

validate_payload_iff_example :
    (validate_payload no_floats payload schema [] ≡ accepted)
    ↔ (AllKnown schema [] payload × EntriesOk no_floats payload schema)
validate_payload_iff_example = validate_payload_iff no_floats payload schema []

abbrev pub daily : SchedulerJob
daily = record {
  job_code = "daily";
  job_name = "Daily sync";
  job_type = "sync";
  description = none;
  parameter_schema = schema;
  trigger_type = "cron";
  cron_expr = some (codes "0 18 * * 1-5");
  timezone = "Asia/Shanghai";
  default_payload = payload;
  max_instances = 1;
  misfire_grace_seconds = 300;
  timeout_seconds = some 10;
  retry_count = 2;
  retry_interval_seconds = 0;
  next_run_at = none;
  last_run_at = none;
  is_enabled = true;
  is_system = true;
  is_hidden = false;
  metadata = end;
  updated_at = 0;
}
