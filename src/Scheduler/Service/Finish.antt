-- ===== src/Scheduler/Service/Finish.antt =====
-- What a finish and the progress reports of a run do to the table of runs.
use stock_center.Base.{
  ℕ, ◌≡◌, ◌≢◌, refl, ap, Bool, true, false, Option, none, some, List, [], ◌∷◌, arith, ◌==◌, ◌∙◌,
  ◌&&◌, String,
}
use stock_center.Base.Json.{Value, Fields, end, set_field}
use stock_center.Scheduler.Store.{
  RunStatus, is_running, SchedulerJobRun, Message, run_is, get_run, update_run,
}
use stock_center.Scheduler.Store.Rows.{find-update_where_self, find-update_where_other}
use stock_center.Scheduler.Execution.{
  Faults, finished, final_summary, found_row, finish_run, report_progress, report_all,
}

-- The table `after` differs from `before` in no row but the run's.
abbrev pub OthersKept : ℕ → List SchedulerJobRun → List SchedulerJobRun → Type 0
OthersKept run_id before after = (j : ℕ) → j ≢ run_id → get_run j after ≡ get_run j before

other_run :
    (run_id j : ℕ) (a : SchedulerJobRun) → j ≢ run_id → run_is run_id a ≡ true → run_is j a ≡ false
other_run run_id j a n e = ground arith

module _ (run_id : ℕ) (f : SchedulerJobRun → SchedulerJobRun)
    (keeps : (r : SchedulerJobRun) → (f r).run_id ≡ r.run_id) where
  pub get_run-update_run :
      (runs : List SchedulerJobRun) {r : SchedulerJobRun}
      → get_run run_id runs ≡ some r
      → (get_run run_id (update_run run_id f runs).1 ≡ some (f r))
        × ((update_run run_id f runs).0 ≡ some (f r))
  unfolding update_run get_run
  get_run-update_run runs {r} h =
      let p =
        find-update_where_self (run_is run_id) f (λ a. ap (λ i. i == run_id) (keeps a)) runs
        ∙ rw (h) refl in
      (p, p)

  pub others-update_run :
      (runs : List SchedulerJobRun) → OthersKept run_id runs (update_run run_id f runs).1
  unfolding update_run get_run
  others-update_run runs j n =
      find-update_where_other (run_is run_id) f (run_is j) (λ a e. other_run run_id j a n e)
        (λ a e. rw (keeps a) (other_run run_id j a n e)) runs

-- The summary after some progress reports.
abbrev pub checkpoint : List Value → Fields → Fields
checkpoint [] summary = summary
checkpoint (p ∷ ps) summary = checkpoint ps (set_field "progress" p summary)

pub OthersKept-trans :
    (run_id : ℕ) (a b c : List SchedulerJobRun)
    → OthersKept run_id a b
    → OthersKept run_id b c
    → OthersKept run_id a c
OthersKept-trans run_id a b c h k j n = k j n ∙ h j n

-- Reports write the checkpoint of a running run, and nothing else.
pub report_all-running :
    (run_id : ℕ) (ps : List Value) (runs : List SchedulerJobRun) (r : SchedulerJobRun)
    → get_run run_id runs ≡ some r
    → is_running r.status ≡ true
    → (get_run run_id (report_all run_id ps runs)
        ≡ some (record r { result_summary = checkpoint ps r.result_summary }))
      × OthersKept run_id runs (report_all run_id ps runs)
unfolding report_all report_progress
report_all-running run_id [] runs r h k = (h, λ j n. refl)
report_all-running run_id (p ∷ ps) runs r h k =
    let f = λ (x : SchedulerJobRun). record x {
      result_summary = set_field "progress" p r.result_summary;
    } in
    let step : report_progress run_id p runs ≡ (update_run run_id f runs).1 =
      rw (h, report_progress) (rw (k) refl) in
    let (found, rest) =
      report_all-running run_id ps (update_run run_id f runs).1 (f r)
        (get_run-update_run run_id f (λ x. refl) runs h).0 k in
    rw (step) (
      found,
      OthersKept-trans run_id runs (update_run run_id f runs).1
          (report_all run_id ps (update_run run_id f runs).1)
          (others-update_run run_id f (λ x. refl) runs) rest,
    )

-- What a finish writes to the row.
abbrev pub finished_row :
    ℕ → RunStatus → ℕ → Option String → Option Message → Fields → SchedulerJobRun → SchedulerJobRun
finished_row now status affected_rows error_code error_message summary r = record r {
  status = status;
  affected_rows = affected_rows;
  finished_at = some now;
  error_code = error_code;
  error_message = error_message;
  result_summary = summary;
}

abbrev pub summary_or : Bool → Option Fields → SchedulerJobRun → Fields
summary_or read_fails (some s) r = s
summary_or true none r = end
summary_or false none r = r.result_summary

final_summary-found :
    (read_fails : Bool) (run_id : ℕ) (given : Option Fields) (runs : List SchedulerJobRun)
    (r : SchedulerJobRun)
    → get_run run_id runs ≡ some r
    → final_summary read_fails run_id given runs ≡ summary_or read_fails given r
unfolding final_summary
final_summary-found read_fails run_id (some s) runs r h = refl
final_summary-found true run_id none runs r h = refl
final_summary-found false run_id none runs r h = rw (h, final_summary)

found_row_of :
    (run_id : ℕ) (u : Option SchedulerJobRun × List SchedulerJobRun) (row : SchedulerJobRun)
    → u.0 ≡ some row
    → found_row run_id u ≡ (finished row, u.1)
found_row_of run_id (none, runs) row h = cc
found_row_of run_id (some r, runs) row h = let e : r ≡ row = cc in rw (e)

-- A finish of a run that exists, on a session that works or with a fresh one that does, writes
-- that row and no other.
pub finish_run-found :
    (now : ℕ) (faults : Faults) (run_id : ℕ) (status : RunStatus) (affected : ℕ)
    (code : Option String) (message : Option Message) (given : Option Fields)
    (runs : List SchedulerJobRun) (r : SchedulerJobRun)
    → get_run run_id runs ≡ some r
    → (faults.update_fails && faults.fresh_fails) ≡ false
    → let row =
        finished_row now status affected code message (summary_or faults.read_fails given r) r in
      let after = finish_run now faults run_id status affected code message given runs in
      (after.0 ≡ finished row)
      × (get_run run_id after.1 ≡ some row)
      × OthersKept run_id runs after.1
unfolding finish_run
finish_run-found now faults run_id status affected code message given runs r h works =
    let s = final_summary faults.read_fails run_id given runs in
    let f = λ (x : SchedulerJobRun). finished_row now status affected code message s x in
    let (found, returned) = get_run-update_run run_id f (λ x. refl) runs h in
    let same = final_summary-found faults.read_fails run_id given runs r h in
    let u = update_run run_id f runs in
    let e : finish_run now faults run_id status affected code message given runs
        ≡ (finished (f r), u.1) =
      rw (works) (found_row_of run_id u (f r) returned) in
    rw (← same) (
      ap (λ x. x.0) e,
      ap (λ x. get_run run_id x.1) e ∙ found,
      λ j n. ap (λ x. get_run j x.1) e ∙ others-update_run run_id f (λ x. refl) runs j n,
    )
