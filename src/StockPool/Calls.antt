-- ===== src/StockPool/Calls.antt =====
-- The calls of the service one behind the other, and how what they keep is proved.
use stock_center.Base.{
  ℕ, ◌≡◌, Bool, true, false, some, List, [], ◌∷◌, Option-cases, if-cases, inl, inr, if◌then◌else◌,
  String,
}
use stock_center.Base.Text.{Text}
use stock_center.StockPool.{StockPool, PolicyUpdate, Tables, get_pool}
use stock_center.StockPool.Service.{
  Result, StockPoolCreate, StockPoolUpdate, realtime_policy_allowed, custom_pool, with_pool,
  column_values, is_set, unique, cleaned, update_policy_part, update_found, add_codes,
}
use stock_center.StockPool.Service as Service

-- A call of the service.
pub data Call : Type 0 where
  create_pool : StockPoolCreate → Call
  update_pool : String → StockPoolUpdate → Call
  update_realtime_policy : String → PolicyUpdate → Call
  delete_pool : String → Call
  add_members : String → List Text → Call
  delete_member : String → Text → Call

-- The tables after a call at `now`, and after calls one behind the other.
abbrev pub after_call : ℕ → Call → Tables → Tables
after_call now (create_pool payload) t = (Service.create_pool now payload t).1
after_call now (update_pool code payload) t = (Service.update_pool now code payload t).1
after_call now (update_realtime_policy code values) t =
    (Service.update_realtime_policy now code values t).1
after_call now (delete_pool code) t = (Service.delete_pool code t).1
after_call now (add_members code codes) t = (Service.add_members now code codes t).1
after_call now (delete_member code stock_code) t = (Service.delete_member code stock_code t).1

abbrev pub after_calls : List (ℕ × Call) → Tables → Tables
after_calls [] t = t
after_calls ((now, c) ∷ cs) t = after_calls cs (after_call now c t)

pub with_pool-keeps :
    {A : Type 0} (P : Tables → Type 0) (code : String) (t : Tables)
    (continue : StockPool → Result A × Tables)
    → P t
    → ((pool : StockPool) → get_pool code t ≡ some pool → P (continue pool).1)
    → P (with_pool code t continue).1
with_pool-keeps P code t continue h k = elim (Option-cases (get_pool code t)) [
  | inl absent ↦ rw (with_pool, absent) h
  | inr (pool, e) ↦ rw (with_pool, e) (k pool e)
]

-- What both branches keep, the conditional keeps.
pub either-keeps :
    {A : Type 0} (P : Tables → Type 0) (b : Bool) (r s : Result A × Tables)
    → (b ≡ true → P r.1)
    → (b ≡ false → P s.1)
    → P (if b then r else s).1
either-keeps {A} P b r s h k = if-cases {A = Result A × Tables} (λ x. P x.1) b h k
