-- ===== src/Paper/Session/Events.antt =====
-- Polls that find the same trouble again do not make the table of events grow.
use mathlib.Core.Path.{subst}
use stock_center.Base.{
  ℕ, ◌≡◌, refl, Bool, true, Option, none, some, List, [], ◌∷◌, ◌++◌, ◌==◌, String, str_eq, eq_iff,
  any, Bool-cases, inl, inr, arith,
}
use stock_center.Base.Json.{Fields}
use stock_center.Base.Fallible.{some-injective}
use stock_center.Paper.{Python, date_of}
use stock_center.Paper.Entry.{not_ready}
use stock_center.Paper.Book.{
  StrategySignalEvent, Book, option_id_eq, same_event, record_signal_event,
}
use stock_center.Paper.Session.{
  Market, RuntimeCandidate, Outcome, degraded, candidate_event, confirm,
}

str_eq_refl : (s : String) → str_eq s s ≡ true
str_eq_refl s = (eq_iff s s).1 refl

==-refl : (n : ℕ) → (n == n) ≡ true
==-refl n = ground arith

option_id_eq_refl : (o : Option ℕ) → option_id_eq o o ≡ true
option_id_eq_refl none = refl
option_id_eq_refl (some n) = ==-refl n

same_event_refl : (e : StrategySignalEvent) → same_event e e ≡ true
same_event_refl e = simp (==-refl, option_id_eq_refl, str_eq_refl)

any-last :
    (p : StrategySignalEvent → Bool) (es : List StrategySignalEvent) (e : StrategySignalEvent)
    → p e ≡ true
    → any p (es ++ e ∷ []) ≡ true
unfolding any
any-last p [] e h = rw (h) refl
any-last p (f ∷ es) e h = elim (Bool-cases (p f)) [
  | inl a ↦ rw (a) refl
  | inr a ↦ rw (a) (any-last p es e h)
]

record_signal_event-again :
    (e : StrategySignalEvent) (book : Book)
    → record_signal_event e (record_signal_event e book) ≡ record_signal_event e book
unfolding record_signal_event
record_signal_event-again e book = elim (Bool-cases (any (same_event e) book.events)) [
  | inl h ↦ rw (h, h) refl
  | inr h ↦ rw (h) (rw (any-last (same_event e) book.events e (same_event_refl e)) refl)
]

-- A poll that finds the data wanting for the same reason as an earlier poll on the same date leaves
-- the book as that poll left it.
pub confirm-again :
    (py : Python) (now later : ℕ) (market market' : Market) (i : RuntimeCandidate)
    (confirmation confirmation' : Fields) (reason : String) (book : Book) {r : Outcome × Book}
    → date_of now ≡ date_of later
    → confirm py now market i confirmation (not_ready reason) book ≡ some r
    → confirm py later market' i confirmation' (not_ready reason) r.1 ≡ some (degraded, r.1)
unfolding confirm
confirm-again py now later market market' i confirmation confirmation' reason book {r} d e =
    let event = candidate_event i later "entry_data_degraded" "degraded" reason none in
    subst
      (λ r. confirm py later market' i confirmation' (not_ready reason) r.1 ≡ some (degraded, r.1))
      (some-injective e) (rw (d) (rw (record_signal_event-again event book) refl))
