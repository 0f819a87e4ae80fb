-- ===== src/Scheduler/Runtime/Tasks.antt =====
-- Cancelling a background run.
use stock_center.Base.{
  ℕ, ◌≡◌, ◌≢◌, refl, ap, ◌∙◌, true, Option, none, some, List, arith, if◌then◌else◌, Bool-cases, inl,
  inr,
}
use stock_center.Scheduler.Store.{find, update_where}
use stock_center.Scheduler.Store.Rows.{find-update_where_self, find-update_where_other}
use stock_center.Scheduler.Runtime.{
  ActiveRunTask, SchedulerRuntime, task_is, is_run_active, cancel_run,
}

abbrev pub asked : ActiveRunTask → ActiveRunTask
asked b = record b { cancel_requested = true }

-- What a cancel request makes of a run's entry: an unfinished task is marked.
abbrev pub after_request : Option ActiveRunTask → Option ActiveRunTask
after_request none = none
after_request (some a) = some (if a.done then a else asked a)

-- A cancel request is granted exactly for an active run; it marks that run's task, which stays
-- active until it ends, and leaves the others.
pub cancel_run_lem :
    (run_id other : ℕ) (rt : SchedulerRuntime)
    → other ≢ run_id
    → let after = cancel_run run_id rt in
      (after.0 ≡ is_run_active run_id rt)
      × (find (task_is run_id) after.1.active_tasks
          ≡ after_request (find (task_is run_id) rt.active_tasks))
      × (is_run_active run_id after.1 ≡ is_run_active run_id rt)
      × (find (task_is other) after.1.active_tasks ≡ find (task_is other) rt.active_tasks)
unfolding cancel_run is_run_active
cancel_run_lem run_id other rt n = go (find (task_is run_id) rt.active_tasks) refl
  where
    Goal : Type 0
    Goal =
        let after = cancel_run run_id rt in
        (after.0 ≡ is_run_active run_id rt)
        × (find (task_is run_id) after.1.active_tasks
            ≡ after_request (find (task_is run_id) rt.active_tasks))
        × (is_run_active run_id after.1 ≡ is_run_active run_id rt)
        × (find (task_is other) after.1.active_tasks ≡ find (task_is other) rt.active_tasks)

    marked : List ActiveRunTask
    marked = update_where (task_is run_id) asked rt.active_tasks

    go : (o : Option ActiveRunTask) → find (task_is run_id) rt.active_tasks ≡ o → Goal
    go none e = rw (e, cancel_run, is_run_active) (refl, e, rw (e) refl, refl)
    go (some a) e =
        let self = find-update_where_self (task_is run_id) asked (λ b. refl) rt.active_tasks in
        let others =
          find-update_where_other (task_is run_id) asked (task_is other) (λ b q. ground arith)
            (λ b q. ground arith) rt.active_tasks in
        elim (Bool-cases a.done) [
          | inl d ↦
              rw (e, cancel_run, is_run_active)
                (rw (d)
                  (refl, e ∙ ap (λ x. some (record a { done = x })) d, rw (e) (rw (d) refl), refl))
          | inr d ↦
              rw (e, cancel_run, is_run_active)
                (rw (d) (
                  refl,
                  self ∙ rw (e) (ap (λ x. some (record a { done = x; cancel_requested = true })) d),
                  rw (self) (rw (e) (rw (d) refl)),
                  others,
                ))
        ]
