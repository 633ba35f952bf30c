-- ===== src/Orchestrator/Semantic.antt =====
-- services/orchestrator/internal/adapters/semanticstage: the semantic service as a stage. The gRPC
-- and HTTP clients and packages json and uuid are parameters, on the state `E` of the world.
use membrane_ai.Base.{
  ℕ, Bool, not, Option, none, some, List, [], ◌∷◌, ◌++◌, Str, bytes, ◌==◌, eqb, if◌then◌else◌,
}
use membrane_ai.Base.Context.{Context}
use membrane_ai.Base.Decimal.{decimal}
use membrane_ai.Errs.{GoError, nil, is_err, internal_err, unavailable_err, Result, ok, err}
use membrane_ai.Base.Int.{ℤ, pos}
use membrane_ai.Http.{Response, read_limited}
use membrane_ai.Orchestrator.Verdict.{Submission, Severity, Finding}
use membrane_ai.Orchestrator.Saga.{StageResult, AnalysisStage}
use membrane_ai.Orchestrator.Stages.{no_result}

pub record GoldContext : Type 0 where
  pub file_path : Str
  pub code : Str
  pub architectural_context : Str

-- resolverfetcher.go: a match of the resolver's reply, and the client.
pub record ResolvedMatch : Type 0 where
  pub file_path : Str
  pub raw_code_content : Str
  pub architectural_context : Str

pub record ResolveRequest : Type 0 where
  pub organization_id : Str
  pub language : Str
  pub diff : Str

abbrev pub ResolverClient : Type 0 → Type 0
ResolverClient E = Context → ResolveRequest → E → Result (List ResolvedMatch) × E

-- A `ContextFetcher`
abbrev pub ContextFetcher : Type 0 → Type 0
ContextFetcher E = Context → Str → Str → Str → E → Result (List GoldContext) × E

unfoldable pub gold_of : List ResolvedMatch → List GoldContext
gold_of [] = []
gold_of (m ∷ ms) =
    record {
      file_path = m.file_path;
      code = m.raw_code_content;
      architectural_context = m.architectural_context;
    }
    ∷ gold_of ms

abbrev fetched : {E : Type 0} → E → Result (List ResolvedMatch) → Result (List GoldContext) × E
fetched e (err failed) = (
  err (
      unavailable_err (bytes "orchestrator.adapters.semanticstage.ResolverFetcher")
        (bytes "resolve context") failed),
  e,
)
fetched e (ok ms) = (ok (gold_of ms), e)

-- `ResolverFetcher.Fetch`
unfoldable pub fetch : {E : Type 0} → ResolverClient E → ContextFetcher E
fetch client ctx org_id language diff e =
    let request : ResolveRequest = record {
      organization_id = org_id;
      language = language;
      diff = diff;
    } in
    let (answer, e') = client ctx request e in fetched e' answer

pub record EvaluateRequest : Type 0 where
  pub submission_id : Str
  pub organization_id : Str
  pub language : Str
  pub masked_diff : Str
  pub gold_context : List GoldContext

pub record WireFinding : Type 0 where
  pub rule : Str
  pub severity : Str
  pub message : Str

pub record EvaluateResponse : Type 0 where
  pub findings : List WireFinding
  pub tier : Str
  pub escalated : Bool

-- `json.Marshal`, `http.NewRequestWithContext` (the error for a URL), `client.Do`,
-- `json.Unmarshal`, and whether `uuid.Parse` accepts a text.
pub record SemanticLib (E : Type 0) : Type 0 where
  pub marshal : EvaluateRequest → Result Str
  pub new_request : Str → GoError
  pub send : Context → Str → Str → E → Result Response × E
  pub unmarshal : Str → Result EvaluateResponse
  pub is_uuid : Str → Bool

abbrev pub max_response_bytes : ℤ
max_response_bytes = pos 4194304

-- `severityFromWire`
unfoldable pub severity_from_wire : Str → Severity
severity_from_wire s =
    if s == bytes "blocking"
    then Severity.blocking
    else if s == bytes "warning"
    then Severity.warning
    else if s == bytes "info"
    then Severity.info
    else Severity.warning

abbrev op_semantic : Str
op_semantic = bytes "orchestrator.adapters.semanticstage"

unfoldable pub wire_findings : List WireFinding → List Finding
unfolding severity_from_wire
wire_findings [] = []
wire_findings (f ∷ fs) =
    record {
      stage = bytes "semantic";
      rule = f.rule;
      severity = severity_from_wire f.severity;
      message = f.message;
    }
    ∷ wire_findings fs

-- The parts of `Analyze`, from the last: the body decoded, the body read, the response.
abbrev evaluated : Result EvaluateResponse → StageResult × GoError
evaluated (err e) = (no_result, internal_err op_semantic (bytes "decode semantic response") e)
evaluated (ok out) = (record { findings = wire_findings out.findings; masked_diff = [] }, nil)

module _ {E : Type 0} (lib : SemanticLib E) where
  abbrev on_payload : ℕ → Result Str → StageResult × GoError
  on_payload code (err e) =
      (no_result, unavailable_err op_semantic (bytes "read semantic response") e)
  on_payload code (ok payload) =
      if not (eqb code 200)
      then (
        no_result,
        unavailable_err op_semantic (bytes "semantic service returned " ++ decimal code) nil,
      )
      else evaluated (lib.unmarshal payload)

  unfoldable pub on_answer : Result Response → StageResult × GoError
  unfolding wire_findings
  on_answer (err e) = (no_result, unavailable_err op_semantic (bytes "semantic call failed") e)
  on_answer (ok r) = on_payload r.status_code (read_limited max_response_bytes r)

  -- The answer of the fetcher: an error means no context.
  abbrev or_none : Result (List GoldContext) × E → List GoldContext × E
  or_none (err failed, e) = ([], e)
  or_none (ok gold, e) = (gold, e)

  -- `fetchContext`; a nil fetcher is `none`, and a nil slice is empty, as its JSON is.
  unfoldable pub fetch_context :
      Option (ContextFetcher E) → Context → Submission → E → List GoldContext × E
  fetch_context none ctx sub e = ([], e)
  fetch_context (some fetcher) ctx sub e =
      if lib.is_uuid sub.organization_id
      then or_none (fetcher ctx sub.organization_id sub.language sub.diff e)
      else ([], e)

  -- The part of `Analyze` that follows the rendering of the request.
  unfoldable pub call_semantic : Str → Context → E → Result Str → StageResult × GoError × E
  unfolding on_answer
  call_semantic url ctx e (err failed) =
      (no_result, internal_err op_semantic (bytes "marshal evaluate request") failed, e)
  call_semantic url ctx e (ok body) =
      let refused = lib.new_request url in
      let (answer, e') = lib.send ctx url body e in
      let (out, er) = on_answer answer in
      if is_err refused
      then (no_result, internal_err op_semantic (bytes "build request") refused, e)
      else (out, er, e')

  abbrev pub evaluate_request : Submission → List GoldContext → EvaluateRequest
  evaluate_request sub gold = record {
    submission_id = sub.submission_id;
    organization_id = sub.organization_id;
    language = sub.language;
    masked_diff = sub.diff;
    gold_context = gold;
  }

  -- `New` and `Stage.Analyze` of package semanticstage
  unfoldable pub semantic_stage : Str → Option (ContextFetcher E) → AnalysisStage E
  unfolding fetch_context call_semantic
  semantic_stage base_url fetcher = record {
    name = bytes "semantic";
    analyze = λ ctx sub e.
        let (gold, e') = fetch_context fetcher ctx sub e in
        call_semantic (base_url ++ bytes "/v1/semantic/evaluate") ctx e'
          (lib.marshal (evaluate_request sub gold));
  }
