-- ===== src/Scheduler/Service/Retry.antt =====
-- How many attempts a run makes, why it stops, and how long it pauses.
use stock_center.Base.{
  ℕ, zero, suc, ◌+◌, ◌≤◌, ◌<◌, ◌≡◌, refl, sym, Bool, true, false, Option, List, arith, ◌==◌,
  if◌then◌else◌, length, All, Bool-cases, inl, inr, ◌⊎◌, String,
}
use mathlib.Core.Path.{subst}
use stock_center.Base.Json.{Fields}
use stock_center.Scheduler.Store.{SchedulerJob, SchedulerJobRun, Message}
use stock_center.Scheduler.Execution.{
  Ending, is_cancelled, raises, Attempt, limited, report_all, pause_seconds, Retried, stopped,
  one_more_sleep, retry_loop, run_with_retry,
}

abbrev pub is_error : Ending → Bool
is_error (raises code details message) = true
is_error _ = false

pub Ending-cases :
    (e : Ending)
    → (is_error e ≡ false)
      ⊎ ((code : Option String) × (details : Option Fields) × (message : Message) × (e
            ≡ raises code details message))
Ending-cases (raises code details message) = inr (code, details, message, refl)
Ending-cases _ = inl refl

module _ (run_id : ℕ) (job : SchedulerJob) (attempt : ℕ → Attempt) where
  abbrev pub ending_of : ℕ → Ending
  ending_of n = limited job.timeout_seconds (attempt n)

  -- What the loop from attempt `n` with `left` more allowed should do, told by its result.
  pub record Follows (n left : ℕ) (r : Retried) : Type 0 where
    pub least : n ≤ r.attempts
    pub most : r.attempts ≤ n + left
    -- every earlier attempt failed with an ordinary error, and no pause was cancelled
    pub earlier :
        (m : ℕ)
        → n ≤ m
        → m < r.attempts
        → (is_error (ending_of m) ≡ true) × ((attempt m).cancelled_in_pause ≡ false)
    -- the last attempt decides, or the pause after it was cancelled
    pub last :
        ((r.ending ≡ ending_of r.attempts)
          × ((is_error (ending_of r.attempts) ≡ false) ⊎ (r.attempts ≡ n + left)))
        ⊎ ((r.ending ≡ is_cancelled)
            × (is_error (ending_of r.attempts) ≡ true)
            × ((attempt r.attempts).cancelled_in_pause ≡ true)
            × (r.attempts < n + left))
    pub pauses : All (λ s. s ≡ pause_seconds job) r.sleeps
    pub few_pauses : n + length r.sleeps ≤ r.attempts + 1
    pub enough_pauses : r.attempts ≤ n + length r.sleeps

  stopped-Follows :
      (n left : ℕ) (runs : List SchedulerJobRun)
      → (is_error (ending_of n) ≡ false) ⊎ (left ≡ 0)
      → Follows n left (stopped n runs (ending_of n))
  stopped-Follows n left runs h = record {
    least = omega arith;
    most = omega arith;
    earlier = λ m a b. absurd (omega arith);
    last = inl (refl, elim h [ inl e ↦ inl e | inr z ↦ inr (omega arith) ]);
    pauses = tt;
    few_pauses = omega arith;
    enough_pauses = omega arith;
  }

  -- The table after the reports of attempt `n`.
  abbrev pub reported : ℕ → List SchedulerJobRun → List SchedulerJobRun
  reported n runs = report_all run_id (attempt n).progress runs

  pub retry_loop-stops :
      (n left : ℕ) (runs : List SchedulerJobRun)
      → is_error (ending_of n) ≡ false
      → retry_loop true run_id job attempt (suc left) n runs
        ≡ stopped n (reported n runs) (ending_of n)
  unfolding retry_loop
  retry_loop-stops n left runs h = decided (ending_of n) refl h
    where
      decided :
          (e : Ending)
          → ending_of n ≡ e
          → is_error e ≡ false
          → retry_loop true run_id job attempt (suc left) n runs
            ≡ stopped n (reported n runs) (ending_of n)
      decided (raises c d m) q k = cc
      decided _ q k = rw (q, retry_loop)

  pub retry_loop-errs :
      (n left : ℕ) (runs : List SchedulerJobRun) {code : Option String} {details : Option Fields}
      {message : Message}
      → ending_of n ≡ raises code details message
      → retry_loop true run_id job attempt (suc left) n runs
        ≡ one_more_sleep (pause_seconds job) (
            if (attempt n).cancelled_in_pause
            then stopped n (reported n runs) is_cancelled
            else retry_loop true run_id job attempt left (n + 1) (reported n runs))
  unfolding retry_loop
  retry_loop-errs n left runs h = rw (h, retry_loop)

  pub retry_loop-zero :
      (n : ℕ) (runs : List SchedulerJobRun)
      → retry_loop true run_id job attempt 0 n runs ≡ stopped n (reported n runs) (ending_of n)
  unfolding retry_loop
  retry_loop-zero n runs = refl

  cancelled-Follows :
      (n left : ℕ) (rs : List SchedulerJobRun)
      → is_error (ending_of n) ≡ true
      → (attempt n).cancelled_in_pause ≡ true
      → Follows n (suc left) (one_more_sleep (pause_seconds job) (stopped n rs is_cancelled))
  cancelled-Follows n left rs e c = record {
    least = omega arith;
    most = omega arith;
    earlier = λ m a b. absurd (omega arith);
    last = inr (refl, e, c, omega arith);
    pauses = (refl, tt);
    few_pauses = omega arith;
    enough_pauses = omega arith;
  }

  later-Follows :
      (n left : ℕ) (r : Retried)
      → is_error (ending_of n) ≡ true
      → (attempt n).cancelled_in_pause ≡ false
      → Follows (n + 1) left r
      → Follows n (suc left) (one_more_sleep (pause_seconds job) r)
  later-Follows n left r e c f = record {
    least = omega (arith, f.least);
    most = omega (arith, f.most);
    earlier = λ m a b. elim (Bool-cases (m == n)) [
      | inl q ↦ let p : m ≡ n = ground arith in rw (p) (e, c)
      | inr q ↦ f.earlier m (ground arith) b
    ];
    last = elim f.last [
      | inl (p, q) ↦ inl (p, elim q [ inl x ↦ inl x | inr x ↦ inr (omega arith) ])
      | inr (p, q, s, t) ↦ inr (p, q, s, omega arith)
    ];
    pauses = (refl, f.pauses);
    few_pauses = omega (arith, f.few_pauses);
    enough_pauses = omega (arith, f.enough_pauses);
  }

  pub retry_loop-Follows :
      (left n : ℕ) (runs : List SchedulerJobRun)
      → Follows n left (retry_loop true run_id job attempt left n runs)
  unfolding retry_loop
  retry_loop-Follows zero n runs = stopped-Follows n 0 (reported n runs) (inr refl)
  retry_loop-Follows (suc left) n runs = elim (Ending-cases (ending_of n)) [
    | inl k ↦
        let rs = reported n runs in
        let p = retry_loop-stops n left runs k in
        subst (Follows n (suc left)) (sym p) (stopped-Follows n (suc left) rs (inl k))
    | inr (code, details, message, e) ↦
        let rs = reported n runs in
        let p = retry_loop-errs n left runs e in
        let failed : is_error (ending_of n) ≡ true = rw (e) refl in
        subst (Follows n (suc left)) (sym p) (elim (Bool-cases (attempt n).cancelled_in_pause) [
          | inl c ↦ rw (c) (cancelled-Follows n left rs failed c)
          | inr c ↦ rw (c) (
              later-Follows n left (retry_loop true run_id job attempt left (n + 1) rs) failed c
                (retry_loop-Follows left (n + 1) rs))
        ])
  ]

-- A run of a registered job makes at least one attempt and at most one more than its retry count.
-- Every attempt before the last failed with an ordinary error; the run ends as its last attempt
-- ends, which is with no ordinary error or with no retry left, or it is cancelled in the pause
-- after it. Each pause has the job's interval, and there is one between any two attempts.
pub run_with_retry-Follows :
    (run_id : ℕ) (job : SchedulerJob) (attempt : ℕ → Attempt) (runs : List SchedulerJobRun)
    → Follows run_id job attempt 1 job.retry_count (run_with_retry true run_id job attempt runs)
unfolding run_with_retry
run_with_retry-Follows run_id job attempt runs =
    retry_loop-Follows run_id job attempt job.retry_count 1 runs
