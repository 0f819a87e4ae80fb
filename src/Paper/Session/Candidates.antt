-- ===== src/Paper/Session/Candidates.antt =====
-- What the confirmation of one candidate does to the book, on every way through it.
use mathlib.Core.Path.{subst}
use stock_center.Base.{
  ℕ, suc, ◌≡◌, ◌⊎◌, refl, sym, ap, ◌∙◌, true, false, Option, none, some, [], ◌∷◌, ◌++◌, ◌==◌,
  String, Bool-cases, inl, inr, any,
}
use stock_center.Base.Json.{Fields, get_or_null}
use stock_center.Base.Fallible.{>>=-eq-some, none≢some, some-injective}
use stock_center.Paper.{Python, dict_or_empty}
use stock_center.Paper.Entry.{
  WindowState, before, active, after, Readiness, ready, not_ready, EntryTrigger, waits, ends, buys,
  window_state, entry_trigger, lot_quantity,
}
use stock_center.Paper.Entry.Bounds.{
  IsLots, lot_quantity-IsLots, IsExecutable, entry_trigger-IsExecutable,
}
use stock_center.Paper.Entry.Checked.{
  IsOpen, IsFresh, window_state-IsOpen, confirmation_readiness-IsFresh,
}
use stock_center.Paper.Book.{
  watching, not_triggered, entry_triggered, StrategySignalEvent, Book, same_event,
  record_signal_event, mark_candidate_status, create_paper_trade_with_entry, new_trade,
}
use stock_center.Paper.Session.{
  Market, RuntimeCandidate, Outcome, quiet, skipped, degraded, triggered, is_pending, quote_of,
  depth_of, drop_candidate, risk_plan_of, enter, act_on, confirmation_of, readiness_of, confirm,
  process_candidate, candidate_event, settle_entry, in_window,
}
use stock_center.Paper.Session.Trades.{record_signal_event-trades}

pub record_signal_event-candidates :
    (e : StrategySignalEvent) (book : Book)
    → (record_signal_event e book).candidates ≡ book.candidates
unfolding record_signal_event
record_signal_event-candidates e book = elim (Bool-cases (any (same_event e) book.events)) [
  | inl h ↦ rw (h) refl
  | inr h ↦ rw (h) refl
]

-- The part of the candidate's plan that says when it may be bought.
abbrev pub Planned : RuntimeCandidate → Fields → Type 0
Planned i confirmation =
    dict_or_empty (get_or_null "confirmation" i.candidate.entry_plan) ≡ some confirmation

-- A purchase: the window is open, the data are ready, the price is executable, the candidate had no
-- trade, and one of whole lots is added.
pub record Entered (py : Python) (now : ℕ) (market : Market) (i : RuntimeCandidate)
    (book after_book : Book) : Type 0 where
  pub confirmation : Fields
  pub price : ℕ
  pub quantity : ℕ
  pub risk_plan : Fields
  pub planned : Planned i confirmation
  pub in_window : window_state py now confirmation ≡ active
  pub window : IsOpen py now confirmation
  pub is_ready : readiness_of py now market i confirmation ≡ some ready
  pub fresh : IsFresh py now (quote_of py now market i) (depth_of py now market i) confirmation
  pub executable :
      IsExecutable py (quote_of py now market i) (depth_of py now market i) confirmation price
  pub lots : IsLots quantity
  pub first : any (λ t. t.candidate_id == i.candidate.id) book.trades ≡ false
  pub candidates :
      after_book.candidates
      ≡ (mark_candidate_status i.candidate.id entry_triggered (some now) book).candidates
  pub trades :
      after_book.trades
      ≡ book.trades ++ new_trade book.next_trade_id i.candidate now price quantity risk_plan ∷ []

-- The four things that may become of a candidate, with the outcome that each reports.
pub data Effect (py : Python) (now : ℕ) (market : Market) (i : RuntimeCandidate) (book : Book)
    : Outcome → Book → Type 0 where
  kept :
      {o : Outcome} {b : Book}
      → (o ≡ quiet) ⊎ (o ≡ degraded)
      → b.candidates ≡ book.candidates
      → b.trades ≡ book.trades
      → Effect py now market i book o b
  watched :
      {b : Book}
      → is_pending i.candidate.candidate_status ≡ true
      → b.candidates ≡ (mark_candidate_status i.candidate.id watching none book).candidates
      → b.trades ≡ book.trades
      → Effect py now market i book quiet b
  dropped :
      {b : Book}
      → b.candidates ≡ (mark_candidate_status i.candidate.id not_triggered none book).candidates
      → b.trades ≡ book.trades
      → Effect py now market i book skipped b
  entered : {b : Book} → Entered py now market i book b → Effect py now market i book triggered b

module _ (py : Python) (now : ℕ) (market : Market) (i : RuntimeCandidate) (book : Book) where
  abbrev HasEffect : Outcome × Book → Type 0
  HasEffect r = Effect py now market i book r.0 r.1

  recorded-kept : (e : StrategySignalEvent) → HasEffect (degraded, record_signal_event e book)
  recorded-kept e =
      kept (inr refl) (record_signal_event-candidates e book) (record_signal_event-trades e book)

  drop_candidate-dropped : (reason : String) → HasEffect (skipped, drop_candidate i now reason book)
  unfolding drop_candidate mark_candidate_status
  drop_candidate-dropped reason =
      let e = candidate_event i now "entry_not_triggered" "skipped" reason none in
      let marked = mark_candidate_status i.candidate.id not_triggered none book in
      dropped (record_signal_event-candidates e marked) (record_signal_event-trades e marked)

  created :
      (price quantity : ℕ) (risk_plan : Fields) {b : Book}
      → create_paper_trade_with_entry i.candidate now price quantity risk_plan book ≡ some b
      → (any (λ t. t.candidate_id == i.candidate.id) book.trades ≡ false)
        × (b ≡ record book {
          trades =
              book.trades
              ++ new_trade book.next_trade_id i.candidate now price quantity risk_plan ∷ [];
          next_trade_id = suc book.next_trade_id;
        })
  unfolding create_paper_trade_with_entry
  created price quantity risk_plan {b} e =
      elim (Bool-cases (any (λ t. t.candidate_id == i.candidate.id) book.trades)) [
        | inl h ↦ absurd (none≢some (rw (h) at e))
        | inr h ↦ (h, sym (some-injective (rw (h) at e)))
      ]

  fresh_of :
      (confirmation : Fields)
      → readiness_of py now market i confirmation ≡ some ready
      → IsFresh py now (quote_of py now market i) (depth_of py now market i) confirmation
  unfolding readiness_of
  fresh_of confirmation d =
      confirmation_readiness-IsFresh py i.definition.entry_mode now (quote_of py now market i)
        (depth_of py now market i) (market.depth_history i.candidate.stock_code)
        (market.minutes i.candidate.stock_code) market.block_status confirmation d

  inserted :
      (confirmation : Fields) (price quantity : ℕ) (risk_plan : Fields) (o : Option Book)
      → Planned i confirmation
      → window_state py now confirmation ≡ active
      → readiness_of py now market i confirmation ≡ some ready
      → IsExecutable py (quote_of py now market i) (depth_of py now market i) confirmation price
      → IsLots quantity
      → create_paper_trade_with_entry i.candidate now price quantity risk_plan book ≡ o
      → HasEffect (settle_entry py now market i book o)
  unfolding settle_entry mark_candidate_status
  inserted confirmation price quantity risk_plan none pl w d x l c =
      recorded-kept (candidate_event i now "entry_write_failed" "degraded" "IntegrityError" none)
  inserted confirmation price quantity risk_plan (some b) pl w d x l c =
      let (first, same) = created price quantity risk_plan c in
      let e =
        candidate_event i now "paper_entry_executed" "executed" "entry_confirmation_matched"
          (some book.next_trade_id) in
      let marked = mark_candidate_status i.candidate.id entry_triggered (some now) b in
      entered (record {
        confirmation = confirmation;
        price = price;
        quantity = quantity;
        risk_plan = risk_plan;
        planned = pl;
        in_window = w;
        window = window_state-IsOpen py now confirmation w;
        fresh = fresh_of confirmation d;
        is_ready = d;
        executable = x;
        lots = l;
        first = first;
        candidates =
            record_signal_event-candidates e marked
            ∙ ap
                (λ b.
                  (mark_candidate_status i.candidate.id entry_triggered (some now) b).candidates)
                same;
        trades = record_signal_event-trades e marked ∙ ap (λ b. b.trades) same;
      })

  enter-effect :
      (confirmation : Fields) (price : ℕ) {r : Outcome × Book}
      → Planned i confirmation
      → window_state py now confirmation ≡ active
      → readiness_of py now market i confirmation ≡ some ready
      → IsExecutable py (quote_of py now market i) (depth_of py now market i) confirmation price
      → enter py now market i price book ≡ some r
      → HasEffect r
  unfolding enter
  enter-effect confirmation price pl w d x e =
      let (risk_plan, e1, k1) = >>=-eq-some (risk_plan_of py now market i) _ e in
      let quantity = lot_quantity py (get_or_null "initial_quantity" risk_plan) in
      subst HasEffect (some-injective k1) (
        inserted confirmation price quantity risk_plan
          (create_paper_trade_with_entry i.candidate now price quantity risk_plan book) pl w d x
          (lot_quantity-IsLots py (get_or_null "initial_quantity" risk_plan)) refl)

  act_on-effect :
      (confirmation : Fields) (t : EntryTrigger) {r : Outcome × Book}
      → Planned i confirmation
      → window_state py now confirmation ≡ active
      → readiness_of py now market i confirmation ≡ some ready
      → entry_trigger py (quote_of py now market i) (depth_of py now market i) confirmation ≡ some t
      → act_on py now market i t book ≡ some r
      → HasEffect r
  unfolding act_on
  act_on-effect confirmation (buys price) pl w d t e =
      enter-effect confirmation price pl w d
        (entry_trigger-IsExecutable py (quote_of py now market i) (depth_of py now market i)
          confirmation price t)
        e
  act_on-effect confirmation (ends reason) pl w d t e =
      subst HasEffect (some-injective e) (drop_candidate-dropped reason)
  act_on-effect confirmation (waits reason) pl w d t e =
      subst HasEffect (some-injective e)
        (elim (Bool-cases (is_pending i.candidate.candidate_status)) [
          | inl p ↦ rw (p) (watched p refl refl)
          | inr p ↦ rw (p) (kept (inl refl) refl refl)
        ])

  confirm-effect :
      (confirmation : Fields) (d : Readiness) {r : Outcome × Book}
      → Planned i confirmation
      → window_state py now confirmation ≡ active
      → readiness_of py now market i confirmation ≡ some d
      → confirm py now market i confirmation d book ≡ some r
      → HasEffect r
  unfolding confirm
  confirm-effect confirmation (not_ready reason) pl w d e =
      subst HasEffect (some-injective e)
        (recorded-kept (candidate_event i now "entry_data_degraded" "degraded" reason none))
  confirm-effect confirmation ready pl w d e =
      let (t, e1, k) =
        >>=-eq-some
          (entry_trigger py (quote_of py now market i) (depth_of py now market i) confirmation) _
          e in
      act_on-effect confirmation t pl w d e1 k

  in_window-effect :
      (confirmation : Fields) (s : WindowState) {r : Outcome × Book}
      → Planned i confirmation
      → window_state py now confirmation ≡ s
      → in_window py now market i confirmation s book ≡ some r
      → HasEffect r
  unfolding in_window
  in_window-effect confirmation before pl w e =
      subst HasEffect (some-injective e) (kept (inl refl) refl refl)
  in_window-effect confirmation after pl w e =
      subst HasEffect (some-injective e) (drop_candidate-dropped "confirmation_window_closed")
  in_window-effect confirmation active pl w e =
      let (d, e1, k) = >>=-eq-some (readiness_of py now market i confirmation) _ e in
      confirm-effect confirmation d pl w e1 k

  -- A poll of a candidate that does not raise leaves it as it is, has it watched, drops it, or buys:
  -- it buys only between the two times of the window in the confirmation of its plan, on a quote that
  -- is as fresh as that asks for and a depth of at most 20 seconds, at an executable price, whole lots,
  -- and only for a candidate that has no trade yet.
  pub process_candidate-Effect :
      {r : Outcome × Book}
      → process_candidate py now market i book ≡ some r
      → Effect py now market i book r.0 r.1
  unfolding process_candidate confirmation_of
  process_candidate-Effect e =
      let (confirmation, e1, k) = >>=-eq-some (confirmation_of py now market i) _ e in
      in_window-effect confirmation (window_state py now confirmation) e1 refl k
