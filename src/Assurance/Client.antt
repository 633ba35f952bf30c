-- ===== src/Assurance/Client.antt =====
-- pkg/assurance/client.go and httpclient.go: reading an evaluation from AgentTwin, over HTTP or from
-- the fake. Packages net/http and encoding/json are a parameter.
pub mod Wire
pub mod Escape
pub mod Fetched
use Prim.Native.Nat.{◌/◌, ◌%◌}
use mathlib.Core.List.{reverse}
use membrane_ai.Base.{
  ℕ, zero, suc, ◌+◌, ◌*◌, Bool, true, false, ◌&&◌, ◌||◌, not, Option, none, some, List, [], ◌∷◌,
  ◌++◌, Str, bytes, ◌==◌, is_blank, length, take, eqb, ltb, leb, if◌then◌else◌,
}
use membrane_ai.Base.Int.{ℤ, pos, negsuc, is_pos}
use membrane_ai.Base.Decimal.{decimal}
use membrane_ai.Base.Maps.{lookup, insert}
use membrane_ai.Errs.{
  GoError, nil, is_err, validation_err, not_found_err, conflict_err, unauthorized_err,
  unavailable_err, internal_err, Result, ok, err,
}
use membrane_ai.Http.{Response, read_limited}
use membrane_ai.Assurance.Allowlist.{NetLib, Allowlist, check_url}
use membrane_ai.Assurance.Build.{EvalResultRef}
use Wire.{EvalDetail, map_eval_detail}
use Escape.{url_path_escape}

-- Durations in nanoseconds, sizes in bytes.
pub record HttpConfig : Type 0 where
  pub base_url : Str
  pub api_key : Str
  pub org : Str
  pub allowlist : Option Allowlist
  pub timeout : ℤ
  pub max_response_bytes : ℤ

abbrev pub default_http_timeout : ℤ
default_http_timeout = pos 8000000000

abbrev pub default_max_response_bytes : ℤ
default_max_response_bytes = pos 8388608

-- `strings.TrimRight(s, "/")`
drop_slashes : Str → Str
drop_slashes [] = []
drop_slashes (c ∷ s) = if eqb c b'/' then drop_slashes s else c ∷ s

unfoldable pub trim_right_slash : Str → Str
unfolding drop_slashes
trim_right_slash s = reverse (drop_slashes (reverse s))

abbrev op_new : Str
op_new = bytes "assurance.NewHTTPClient"

-- The configuration with its defaults, at the end of `NewHTTPClient`.
unfoldable pub with_defaults : HttpConfig → HttpConfig
with_defaults cfg = record cfg {
  timeout = if is_pos cfg.timeout then cfg.timeout else default_http_timeout;
  max_response_bytes =
      if is_pos cfg.max_response_bytes then cfg.max_response_bytes else default_max_response_bytes;
  base_url = trim_right_slash cfg.base_url;
}

-- The part of `NewHTTPClient` that needs the allowlist.
unfoldable pub with_allowlist : NetLib → Option Allowlist → HttpConfig → Result HttpConfig
with_allowlist net none cfg =
    err (validation_err op_new (bytes "a destination allowlist is required") nil)
with_allowlist net (some allow) cfg =
    let rejected = check_url net allow cfg.base_url in
    if is_err rejected
    then err (validation_err op_new (bytes "AgentTwin base URL rejected by allowlist") rejected)
    else ok (with_defaults cfg)

-- `NewHTTPClient`: the client is its configuration.
unfoldable pub new_http_client : NetLib → HttpConfig → Result HttpConfig
new_http_client net cfg =
    if is_blank cfg.base_url
    then err (validation_err op_new (bytes "AgentTwin base URL is required") nil)
    else if is_blank cfg.api_key
    then err (validation_err op_new (bytes "AgentTwin API key is required") nil)
    else with_allowlist net cfg.allowlist cfg

pub record Request : Type 0 where
  pub url : Str
  pub headers : List (Str × Str)

-- `http.NewRequestWithContext` (the error for a URL), `client.Do` on the state of the world, and
-- `json.Unmarshal`.
pub record HttpLib (W : Type 0) : Type 0 where
  pub new_request : Str → GoError
  pub send : Request → W → W × Result Response
  pub unmarshal : Str → Result EvalDetail

-- `statusError`
unfoldable pub status_error : Str → ℕ → GoError
status_error op code =
    if leb 200 code && ltb code 300
    then nil
    else if eqb code 401 || eqb code 403
    then unauthorized_err op (bytes "agenttwin rejected credentials (" ++ decimal code ++ bytes ")")
        nil
    else if eqb code 404
    then not_found_err op (bytes "evaluation run not found") nil
    else if eqb code 409
    then conflict_err op (bytes "agenttwin conflict (409)") nil
    else if eqb code 429
    then unavailable_err op (bytes "agenttwin rate limited (429)") nil
    else if leb 500 code
    then unavailable_err op (bytes "agenttwin server error (" ++ decimal code ++ bytes ")") nil
    else internal_err op (bytes "unexpected agenttwin status (" ++ decimal code ++ bytes ")") nil

abbrev pub op_get : Str
op_get = bytes "assurance.HTTPClient.GetEvalResult"

-- The URL and the headers of the request.
unfoldable pub eval_request : HttpConfig → Str → Request
eval_request cfg id = record {
  url = cfg.base_url ++ bytes "/api/v1/eval-runs/" ++ url_path_escape id;
  headers =
      (bytes "X-AgentTwin-Api-Key", cfg.api_key)
      ∷ (bytes "Accept", bytes "application/json")
      ∷ (if not (cfg.org == []) then (bytes "X-AgentTwin-Org", cfg.org) ∷ [] else []);
}

abbrev pub decoded : Result EvalDetail → Result EvalResultRef
decoded (err e) = err (internal_err op_get (bytes "decode response") e)
decoded (ok d) = ok (map_eval_detail d)

abbrev pub read_body : (Str → Result EvalDetail) → Result Str → Result EvalResultRef
read_body unmarshal (err e) = err (unavailable_err op_get (bytes "read response") e)
read_body unmarshal (ok body) = decoded (unmarshal body)

module _ {W : Type 0} (lib : HttpLib W) where
  -- The part of `GetEvalResult` that follows the call.
  unfoldable pub on_response : HttpConfig → Result Response → Result EvalResultRef
  on_response cfg (err e) = err (unavailable_err op_get (bytes "agenttwin request failed") e)
  on_response cfg (ok r) =
      if is_err (status_error op_get r.status_code)
      then err (status_error op_get r.status_code)
      else read_body lib.unmarshal (read_limited cfg.max_response_bytes r)

  -- `HTTPClient.GetEvalResult`
  unfoldable pub get_eval_result : HttpConfig → Str → W → W × Result EvalResultRef
  unfolding on_response
  get_eval_result cfg id w =
      let request = eval_request cfg id in
      let refused = lib.new_request request.url in
      if is_blank id
      then (w, err (validation_err op_get (bytes "evalRunID is required") nil))
      else if is_err refused
      then (w, err (internal_err op_get (bytes "build request") refused))
      else let (w', answer) = lib.send request w in (w', on_response cfg answer)

-- `NewFakeClient` and its loop: a later result replaces an earlier one of the same run.
unfoldable pub seed_results :
    List EvalResultRef → List (Str × EvalResultRef) → List (Str × EvalResultRef)
seed_results [] m = m
seed_results (r ∷ rest) m = seed_results rest (insert r.evaluation_run_id r m)

unfoldable pub new_fake_client : List EvalResultRef → List (Str × EvalResultRef)
unfolding seed_results
new_fake_client results = seed_results results []

abbrev or_unknown : Str → Option EvalResultRef → Result EvalResultRef
or_unknown id (some r) = ok r
or_unknown id none = err (
    not_found_err (bytes "assurance.FakeClient.GetEvalResult")
      (bytes "no such evaluation run: " ++ id) nil)

-- `FakeClient.GetEvalResult`
unfoldable pub fake_get_eval_result : List (Str × EvalResultRef) → Str → Result EvalResultRef
fake_get_eval_result m id = or_unknown id (lookup id m)
