-- ===== src/Scheduler/Service/Cancel.antt =====
-- Cancelling a run by its record alone, and what a finish that comes later makes of it.
use stock_center.Base.{
  ℕ, ◌≡◌, ◌≢◌, refl, ap, Bool, true, false, Option, none, some, List, [], ◌∷◌, arith, if◌then◌else◌,
  Bool-cases, inl, inr, ◌∙◌, ◌&&◌, String,
}
use stock_center.Base.Json.{Fields}
use stock_center.Scheduler.Store.{
  success, cancelled, is_running, SchedulerJobRun, text, run_is, find, update_where, get_run,
}
use stock_center.Scheduler.Store.Rows.{find-update_where_other}
use stock_center.Scheduler.Execution.{Faults, finish_run}
use stock_center.Scheduler.Service.{cancel_run_record}
use stock_center.Scheduler.Service.Finish.{OthersKept, finish_run-found}

abbrev pub cancelled_row : ℕ → String → String → SchedulerJobRun → SchedulerJobRun
cancelled_row now code message r = record r {
  status = cancelled;
  finished_at = some now;
  error_code = some code;
  error_message = some (text message);
}

-- The row that a cancellation should leave: only a running one changes.
abbrev pub after_cancel : ℕ → String → String → Option SchedulerJobRun → Option SchedulerJobRun
after_cancel now code message none = none
after_cancel now code message (some r) =
    some (if is_running r.status then cancelled_row now code message r else r)

abbrev first_of_two : Option SchedulerJobRun → Option SchedulerJobRun → Option SchedulerJobRun
first_of_two row fallback = elim row [ none ↦ fallback | some r ↦ some r ]

first_of_two-after_cancel :
    (now : ℕ) (code message : String) (g : Option SchedulerJobRun)
    → first_of_two
        (elim g [
          | none ↦ none
          | some r ↦ if is_running r.status then some (cancelled_row now code message r) else none
        ])
        (after_cancel now code message g)
      ≡ after_cancel now code message g
first_of_two-after_cancel now code message none = refl
first_of_two-after_cancel now code message (some r) = elim (Bool-cases (is_running r.status)) [
  | inl e ↦ rw (e) refl
  | inr e ↦ rw (e) refl
]

module _ (now run_id : ℕ) (code message : String) where
  abbrev matches : SchedulerJobRun → Bool
  matches r = run_is run_id r && is_running r.status

  -- No two rows have one run_id.
  abbrev pub Unique : List SchedulerJobRun → Type 0
  Unique [] = Unit
  Unique (r ∷ rs) = (run_is run_id r ≡ true → get_run run_id rs ≡ none) × Unique rs

  absent-unchanged :
      (runs : List SchedulerJobRun)
      → get_run run_id runs ≡ none
      → update_where matches (cancelled_row now code message) runs ≡ runs
  unfolding get_run update_where
  absent-unchanged [] h = refl
  absent-unchanged (r ∷ rs) h = ground (arith, absent-unchanged rs)

  absent-find :
      (runs : List SchedulerJobRun) → get_run run_id runs ≡ none → find matches runs ≡ none
  unfolding get_run
  absent-find [] h = refl
  absent-find (r ∷ rs) h = ground (arith, absent-find rs)

  get_run-cancel :
      (runs : List SchedulerJobRun)
      → Unique runs
      → (get_run run_id (update_where matches (cancelled_row now code message) runs)
          ≡ after_cancel now code message (get_run run_id runs))
        × ((elim (find matches runs) [
          | none ↦ none
          | some r ↦ some (cancelled_row now code message r)
        ])
            ≡ elim (get_run run_id runs) [
              | none ↦ none
              | some r ↦
                  if is_running r.status then some (cancelled_row now code message r) else none
            ])
  unfolding get_run update_where
  get_run-cancel [] u = (refl, refl)
  get_run-cancel (r ∷ rs) u = elim (Bool-cases (run_is run_id r)) [
    | inl e ↦ elim (Bool-cases (is_running r.status)) [
      | inl k ↦ rw (e, k) (rw (e) (refl, refl))
      | inr k ↦ rw (e, k) (rw (e, absent-find rs (u.0 e)) (refl, refl))
    ]
    | inr e ↦ rw (e) (rw (e) (get_run-cancel rs u.1))
  ]

  other_match : (a : SchedulerJobRun) (j : ℕ) → j ≢ run_id → matches a ≡ true → run_is j a ≡ false
  other_match a j n e = ground arith

  -- What a caller of cancel_run_record reads, and what it leaves: a running run is cancelled at
  -- `now`, any other stays as it is and is read as it is, a missing one is reported as missing, and
  -- no other row changes.
  pub cancel_run_record_lem :
      (runs : List SchedulerJobRun)
      → Unique runs
      → let after = cancel_run_record now run_id code message runs in
        (after.0 ≡ after_cancel now code message (get_run run_id runs))
        × (get_run run_id after.1 ≡ after_cancel now code message (get_run run_id runs))
        × OthersKept run_id runs after.1
  unfolding cancel_run_record get_run
  cancel_run_record_lem runs u =
      let (found, returned) = get_run-cancel runs u in
      (
        ap
              (λ x.
                first_of_two x
                  (get_run run_id (update_where matches (cancelled_row now code message) runs)))
              returned
            ∙ ap
                (first_of_two (elim (get_run run_id runs) [
                  | none ↦ none
                  | some r ↦
                      if is_running r.status then some (cancelled_row now code message r) else none
                ]))
                found
            ∙ first_of_two-after_cancel now code message (get_run run_id runs),
        found,
        λ j n.
            find-update_where_other matches (cancelled_row now code message) (run_is j)
              (λ a e. other_match a j n e) (λ a e. other_match a j n e) runs,
      )

-- A running run that is cancelled by its record while its handler goes on: when the handler then
-- returns, the finish writes success over the cancellation, at its own time and with no error code.
pub finish_run-after_cancel :
    (now later run_id affected : ℕ) (code message : String) (faults : Faults) (summary : Fields)
    (runs : List SchedulerJobRun) (r : SchedulerJobRun)
    → Unique now run_id code message runs
    → get_run run_id runs ≡ some r
    → is_running r.status ≡ true
    → (faults.update_fails && faults.fresh_fails) ≡ false
    → let mid = cancel_run_record now run_id code message runs in
      let final = finish_run later faults run_id success affected none none (some summary) mid.1 in
      (mid.0 ≡ some (cancelled_row now code message r))
      × (get_run run_id final.1
          ≡ some (record r {
            status = success;
            affected_rows = affected;
            finished_at = some later;
            error_code = none;
            error_message = none;
            result_summary = summary;
          }))
finish_run-after_cancel now later run_id affected code message faults summary runs r u h k works =
    let (read, stored, _) = cancel_run_record_lem now run_id code message runs u in
    let q : after_cancel now code message (get_run run_id runs)
        ≡ some (cancelled_row now code message r) =
      rw (h) (rw (k) refl) in
    let (_, kept, _) =
      finish_run-found later faults run_id success affected none none (some summary)
        (cancel_run_record now run_id code message runs).1 (cancelled_row now code message r)
        (stored ∙ q) works in
    (read ∙ q, kept)
