-- ===== src/Backtest/Promotion/Only.antt =====
-- What a promotion and a finished baseline leave of the table of versions.
use stock_center.Base.{
  ℕ, ◌≡◌, refl, sym, Bool, true, false, not, Option, none, some, List, [], ◌∷◌, ◌==◌, ◌&&◌, ◌||◌,
  if◌then◌else◌, All, map, Bool-cases, inl, inr,
}
use stock_center.Scheduler.Store.{find}
use stock_center.Backtest.Promotion.{
  VersionStatus, draft, backtest_ready, paper, retired, StrategyVersion, is_ready, is_paper,
  is_version, promoted, refused, strategy_version_not_found, strategy_backtest_required,
  retire_others, publish, promote_found, promote_version_to_paper,
}

-- A version of the strategy that is on paper is the one with this id.
abbrev pub only_paper : ℕ → ℕ → StrategyVersion → Bool
only_paper strategy_id id v = not (v.strategy_id == strategy_id && is_paper v.status) || v.id == id

retired_or_other :
    (chosen same_strategy : Bool) (status : VersionStatus)
    → (not (
          same_strategy
          && is_paper (
              if chosen
              then paper
              else if same_strategy && (not chosen && is_paper status)
              then retired
              else status))
        || chosen)
      ≡ true
retired_or_other true true status = refl
retired_or_other true false status = refl
retired_or_other false false status = refl
retired_or_other false true draft = refl
retired_or_other false true backtest_ready = refl
retired_or_other false true paper = refl
retired_or_other false true retired = refl

all-changed :
    (strategy_id id : ℕ) (versions : List StrategyVersion)
    → All
        (λ v. only_paper strategy_id id v ≡ true)
        (map (publish id) (map (retire_others strategy_id id) versions))
all-changed strategy_id id [] = tt
all-changed strategy_id id (v ∷ vs) = (
  retired_or_other (v.id == id) (v.strategy_id == strategy_id) v.status,
  all-changed strategy_id id vs,
)

-- What a successful promotion was allowed for, and what it leaves.
pub record Promoted (strategy_id version_no : ℕ) (versions after : List StrategyVersion)
    : Type 0 where
  pub chosen : StrategyVersion
  pub found : find (is_version strategy_id version_no) versions ≡ some chosen
  pub ready : is_ready chosen.status ≡ true
  pub qualified : chosen.qualified_for_paper_review ≡ true
  pub table : after ≡ map (publish chosen.id) (map (retire_others strategy_id chosen.id) versions)
  pub only : All (λ v. only_paper strategy_id chosen.id v ≡ true) after

and-both : (a b : Bool) → a && b ≡ true → (a ≡ true) × (b ≡ true)
and-both true b h = (refl, h)
and-both false b h = absurd cc

promoted-injective : {a b : List StrategyVersion} → promoted a ≡ promoted b → a ≡ b
promoted-injective h = cc

-- A version that is promoted was ready and qualified, and afterwards no other version of its
-- strategy is on paper.
pub promote_version_to_paper-only :
    (strategy_id version_no : ℕ) (versions : List StrategyVersion) {after : List StrategyVersion}
    → promote_version_to_paper strategy_id version_no versions ≡ promoted after
    → Promoted strategy_id version_no versions after
unfolding promote_version_to_paper
promote_version_to_paper-only strategy_id version_no versions {after} e =
    at_found (find (is_version strategy_id version_no) versions) refl e
  where
    at_found :
        (o : Option StrategyVersion)
        → find (is_version strategy_id version_no) versions ≡ o
        → promote_found strategy_id versions o ≡ promoted after
        → Promoted strategy_id version_no versions after
    at_found none f k =
        absurd (let no : refused strategy_version_not_found ≡ promoted after = k in cc)
    at_found (some v) f k = elim (Bool-cases (is_ready v.status && v.qualified_for_paper_review)) [
      | inl ok ↦
          let (ready, qualified) = and-both (is_ready v.status) v.qualified_for_paper_review ok in
          let same = promoted-injective (rw (ok) at k) in
          record {
            chosen = v;
            found = f;
            ready = ready;
            qualified = qualified;
            table = sym same;
            only = rw (← same) (all-changed strategy_id v.id versions);
          }
      | inr ok ↦
          absurd (let no : refused strategy_backtest_required ≡ promoted after = rw (ok) at k in cc)
    ]
