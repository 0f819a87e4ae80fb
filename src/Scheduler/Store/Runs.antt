-- ===== src/Scheduler/Store/Runs.antt =====
-- The rows in the table of runs: when a row is consistent, and what the sweep at start-up does to them.
use stock_center.Base.{
  ℕ, zero, suc, ◌≡◌, ◌≢◌, refl, true, false, none, some, List, [], ◌∷◌, arith, get_elem?,
  Bool-cases, inl, inr, String,
}
use stock_center.Scheduler.Store.{
  is_running, SchedulerJobRun, count_where, mark_orphaned_running_runs,
}

-- A run has an end time exactly when it is no longer running.
pub record IsConsistent (r : SchedulerJobRun) : Type 0 where
  pub open_end : is_running r.status ≡ true → r.finished_at ≡ none
  pub closed_end : is_running r.status ≡ false → r.finished_at ≢ none

-- After the sweep at start-up no run is running, the number that it returns is the number of rows
-- that were, and a row `r` that was not running at place `i` stands there as it was.
pub mark_orphaned_lem :
    (code message : String) (now : ℕ) (runs : List SchedulerJobRun) (i : ℕ) (r : SchedulerJobRun)
    → get_elem? runs i ≡ some r
    → is_running r.status ≡ false
    → let after = mark_orphaned_running_runs code message now runs in
      (count_where (λ r. is_running r.status) after.1 ≡ 0)
      × (after.0 ≡ count_where (λ r. is_running r.status) runs)
      × (get_elem? after.1 i ≡ some r)
unfolding mark_orphaned_running_runs
mark_orphaned_lem code message now runs i r h k = (none_left runs, refl, kept runs i r h k)
  where
    none_left :
        (runs : List SchedulerJobRun)
        → count_where
            (λ r. is_running r.status)
            (mark_orphaned_running_runs code message now runs).1
          ≡ 0
    none_left [] = refl
    none_left (r ∷ rs) = elim (Bool-cases (is_running r.status)) [
      | inl e ↦ rw (e) (omega (arith, none_left rs))
      | inr e ↦ rw (e) (rw (e) (omega (arith, none_left rs)))
    ]

    kept :
        (runs : List SchedulerJobRun) (i : ℕ) (r : SchedulerJobRun)
        → get_elem? runs i ≡ some r
        → is_running r.status ≡ false
        → get_elem? (mark_orphaned_running_runs code message now runs).1 i ≡ some r
    kept [] i r h k = cc
    kept (q ∷ qs) zero r h k = let p : q ≡ r = cc in rw (p) (rw (k) refl)
    kept (q ∷ qs) (suc i) r h k = kept qs i r h k
