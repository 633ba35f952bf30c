-- ===== src/Orchestrator/Stages/Analyzed.antt =====
-- What the analyzer and the saga make of a blocking finding.
use mathlib.Core.Path.{subst}
use membrane_ai.Base.{
  ℕ, suc, ◌≡◌, inl, inr, refl, sym, ap, ◌∙◌, true, some, List, [], ◌∷◌, ◌++◌, Str, arith, any, Any,
  All, Bool-cases,
}
use membrane_ai.Base.Context.{Context}
use membrane_ai.Errs.{is_err, Result, ok, err, Result-cases}
use membrane_ai.Scan
use membrane_ai.Scan.{ScanLib, secret_detect}
use membrane_ai.Scan.Hits.{Flags, Leaks, secret_detect_iff, secret_detect-IsBlocking}
use membrane_ai.Analyzer.Analyze
use membrane_ai.Analyzer.Analyze.{Input, new_input, Analysis, analyze_diff}
use membrane_ai.Analyzer.Analyze.Chain.{Found, concat, analyze_diff_iff}
use membrane_ai.Analyzer.Detectors.{from_scan, converted, severity_of, service_detectors}
use membrane_ai.Analyzer.Server.{
  AnalyzeRequest, AnalyzeResponse, reply, serve_input, serve_analyze, answered, findings_to_proto,
}
use membrane_ai.Orchestrator.Verdict.{Submission, Finding, rejected, is_blocking, consolidate}
use membrane_ai.Orchestrator.Verdict.Decisions.{consolidate-append, consolidate-eq-decision_of}
use membrane_ai.Orchestrator.Saga.{AnalysisStage, run_stages, redact}
use membrane_ai.Orchestrator.Stages
use membrane_ai.Orchestrator.Stages.{
  secret_scan, scan_findings, scan_result, AnalyzerClient, grpc_stage, request_of, remote_result,
  findings_from_proto,
}
use membrane_ai.Orchestrator.Stages.Remote.{carried, findings_from_proto-findings_to_proto}

-- Some finding of the saga is blocking.
abbrev pub Blocks : List Finding → Type 0
Blocks fs = any (λ (f : Finding). is_blocking f.severity) fs ≡ true

pub Blocks-rejected : (fs : List Finding) → Blocks fs → consolidate fs ≡ rejected
Blocks-rejected fs h = ground (arith, consolidate-eq-decision_of fs, h)

rejected_first :
    (fs gs : List Finding) → consolidate fs ≡ rejected → consolidate (fs ++ gs) ≡ rejected
rejected_first fs gs h = ground (arith, consolidate-append fs gs, h)

rejected_later :
    (fs gs : List Finding) → consolidate gs ≡ rejected → consolidate (fs ++ gs) ≡ rejected
rejected_later fs gs h = ground (arith, consolidate-append fs gs, h)

-- A blocking finding of package scan is one of the fallback stage.
pub scan_findings-Blocks :
    (P : Scan.Finding → Type 0) (fs : List Scan.Finding)
    → Any P fs
    → All (λ (f : Scan.Finding). f.severity ≡ Scan.Severity.blocking) fs
    → Blocks (scan_findings fs)
unfolding scan_findings Stages.severity_of
scan_findings-Blocks P [] h b = elim h [ ]
scan_findings-Blocks P (f ∷ fs) h (blocking, rest) = rw blocking refl

-- And so it is when it comes from the analyzer.
carried-Blocks :
    (P : Scan.Finding → Type 0) (fs : List Scan.Finding) (more : List Analyze.Finding)
    → Any P fs
    → All (λ (f : Scan.Finding). f.severity ≡ Scan.Severity.blocking) fs
    → Blocks (carried (from_scan fs ++ more))
unfolding from_scan severity_of
carried-Blocks P [] more h b = elim h [ ]
carried-Blocks P (f ∷ fs) more h (blocking, rest) = rw blocking refl

module _ {E : Type 0} where
  -- A later stage does not lift a rejection.
  pub run_stages-rejected :
      (ctx : Context) (current : Submission) (fs : List Finding) (stages : List (AnalysisStage E))
      (e : E) {out : List Finding}
      → consolidate fs ≡ rejected
      → (run_stages ctx current fs stages e).0 ≡ some out
      → consolidate out ≡ rejected
  unfolding run_stages
  run_stages-rejected ctx current fs [] e h s = cc (h, s)
  run_stages-rejected ctx current fs (stage ∷ stages) e h s =
      let (answer, er, e') = stage.analyze ctx current e in
      elim (Bool-cases (is_err er)) [
        | inl failed ↦ absurd (ground (arith, s, failed))
        | inr passed ↦
            run_stages-rejected ctx (redact current answer.masked_diff) (fs ++ answer.findings)
              stages e' (rejected_first fs answer.findings h) (ground (arith, s, passed))
      ]

converted-ok :
    (r : Result (List Scan.Finding)) (fs : List Analyze.Finding)
    → converted r ≡ ok fs
    → (found : List Scan.Finding) × (r ≡ ok found) × (fs ≡ from_scan found)
converted-ok (err e) fs h = absurd (cc h)
converted-ok (ok found) fs h = (found, refl, cc h)

new_input_diff :
    (lower : Str → Str) (req : AnalyzeRequest) {input : Input}
    → new_input lower req.submission_id req.organization_id req.repository req.file_path
        req.language req.diff
      ≡ ok input
    → input.diff ≡ req.diff
unfolding new_input
new_input_diff lower req h = ground (arith, h)

module _ (lib : ScanLib) (rule : Str) (n : ℕ) where
  -- The findings of the analyzer's chain on a diff that leaks.
  chain-Blocks :
      (ctx : Context) (input : Input) (found : List (List Analyze.Finding))
      → Leaks lib input.diff rule n
      → Found ctx input (service_detectors lib) found
      → Blocks (carried (concat found))
  chain-Blocks ctx input [] leak h = elim h [ ]
  chain-Blocks ctx input (fs ∷ found) leak (first, rest) =
      let (leaks, e, same) =
        converted-ok (secret_detect lib ctx input.diff input.language) fs first in
      let flagged = (secret_detect_iff lib ctx input.diff input.language rule n leaks e).1 leak in
      let blocking = secret_detect-IsBlocking lib ctx input.diff input.language leaks e in
      subst (λ xs. Blocks (carried (xs ++ concat found))) (sym same)
        (carried-Blocks (Flags rule (suc n)) leaks (concat found) flagged blocking)

  answered-rejected :
      (ctx : Context) (input : Input) (resp : AnalyzeResponse)
      → Leaks lib input.diff rule n
      → answered (analyze_diff (service_detectors lib) ctx input) ≡ reply resp
      → consolidate (findings_from_proto resp.findings) ≡ rejected
  answered-rejected ctx input resp leak h =
      elim (Result-cases (analyze_diff (service_detectors lib) ctx input)) [
        | inl (a, e) ↦
            let (found, each, same) = (analyze_diff_iff (service_detectors lib) ctx input a).0 e in
            let rejected =
              Blocks-rejected (carried (concat found)) (chain-Blocks ctx input found leak each) in
            let sent : resp.findings ≡ findings_to_proto (concat found) =
              cc (sym (ap answered e) ∙ h, same) in
            ap (λ fs. consolidate (findings_from_proto fs)) sent
            ∙ ap consolidate (findings_from_proto-findings_to_proto (concat found))
            ∙ rejected
        | inr (x, e) ↦ absurd (cc (sym (ap answered e) ∙ h))
      ]

  pub served-rejected :
      (ctx : Context) (req : AnalyzeRequest) (resp : AnalyzeResponse)
      → Leaks lib req.diff rule n
      → serve_analyze lib.to_lower (analyze_diff (service_detectors lib)) ctx req ≡ reply resp
      → consolidate (findings_from_proto resp.findings) ≡ rejected
  unfolding serve_analyze
  served-rejected ctx req resp leak h =
      let parsed =
        new_input lib.to_lower req.submission_id req.organization_id req.repository req.file_path
          req.language req.diff in
      let serve = serve_input (analyze_diff (service_detectors lib)) ctx in
      elim (Result-cases parsed) [
        | inl (input, e) ↦
            answered-rejected ctx input resp
              (subst (λ d. Leaks lib d rule n) (sym (new_input_diff lib.to_lower req e)) leak)
              (sym (ap serve e) ∙ h)
        | inr (x, e) ↦ absurd (cc (sym (ap serve e) ∙ h))
      ]
