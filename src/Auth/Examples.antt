-- ===== src/Auth/Examples.antt =====
-- A request with a key whose rate is exhausted, for the hook of src/server/auth.ts.
use agy_proxy.Prelude.{true, none, some, [], ◌∷◌, codes}
use agy_proxy.Keys
use agy_proxy.Keys.{RawKeyRow, KeyStore}
use agy_proxy.Auth.{Request, Moment, Gate, single, auth_hook}
use agy_proxy.Auth.Verdicts.{Verdict, auth_hook-Verdict}

abbrev host : Keys.Host
host = record {
  hash_key = λ t. t;
  seal_secret = λ _ _ t. t;
  open_secret = λ _ t. none;
  trim = λ t. t;
}

abbrev request : Request
request = record {
  url = codes "/v1/models";
  headers = record { authorization = none; x_api_key = single (codes "sk-agy-a") };
  id = none;
}

abbrev moment : Moment
moment = record {
  now = 5;
  db_sum = 0;
  midnight = 0;
  reset_ms = 1000;
  reset_at = [];
  wait_ms = some 1500;
}

abbrev row : RawKeyRow
row = record {
  id = codes "k";
  name = codes "n";
  key_hash = codes "sk-agy-a";
  prefix = codes "a";
  created_at = 0;
  disabled_at = none;
  daily_token_limit = 0;
  rpm_limit = 3;
  scopes = none;
  last_used_at = none;
  secret_enc = none;
}

abbrev store : KeyStore
store = record {
  rows = row ∷ [];
  master_key = none;
  last_written = [];
  touch_pending = [];
  scopes_cache = [];
  db_ok = true;
}

abbrev gate : Gate
gate = record { keys = some store; ledger = none; consumed = [] }

auth_hook-Verdict_example :
    Verdict host
      (codes "root")
      request
      moment
      gate
      (auth_hook host (codes "root") request moment gate).0
auth_hook-Verdict_example = auth_hook-Verdict host (codes "root") request moment gate
