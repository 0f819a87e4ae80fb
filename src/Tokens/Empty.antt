-- ===== src/Tokens/Empty.antt =====
-- python-back/app/modules/market_data/tushare_runtime.py: when a payload holds no records.
use stock_center.Base.{Bool, true, false, ◌&&◌}
use stock_center.Base.Json.{Value, null, arr, obj, nil, Fields, end, field}

-- _payload_has_no_records for a JSON payload: nothing, an empty list, or a dict of such payloads.
unfoldable mutual
  pub payload_has_no_records : Value → Bool
  payload_has_no_records null = true
  payload_has_no_records (obj fs) = all_without_records fs
  payload_has_no_records (arr nil) = true
  payload_has_no_records _ = false

  pub all_without_records : Fields → Bool
  all_without_records end = true
  all_without_records (field k v fs) = payload_has_no_records v && all_without_records fs
