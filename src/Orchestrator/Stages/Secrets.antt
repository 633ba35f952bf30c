-- ===== src/Orchestrator/Stages/Secrets.antt =====
-- A secret in the diff and the decision of the saga: with the analyzer as its first stage and the
-- scan for secrets as its fallback.
use membrane_ai.Base.{◌≡◌, ◌⊎◌, true, false}
use membrane_ai.Base.Context.{Context}
use membrane_ai.Errs.{GoError, is_err, ok}
use membrane_ai.Scan.{ScanLib}
use membrane_ai.Analyzer.Analyze.{analyze_diff}
use membrane_ai.Analyzer.Detectors.{service_detectors}
use membrane_ai.Analyzer.Server.{AnalyzeRequest, AnalyzeResponse, reply, serve_analyze}
use membrane_ai.Orchestrator.Verdict.{Verdict, needs_review, rejected, Source, consolidate}
use membrane_ai.Orchestrator.Saga.{StageResult}
use membrane_ai.Orchestrator.Stages.{AnalyzerClient}

-- A client of the analyzer that reports only what the service, with its detectors, has answered.
abbrev pub Serves : {E : Type 0} → ScanLib → AnalyzerClient E → Type 0
Serves {E} lib client =
    (ctx : Context) (req : AnalyzeRequest) (e : E) (resp : AnalyzeResponse)
    → (client ctx req e).0 ≡ ok resp
    → (remote : Context) × (serve_analyze lib.to_lower (analyze_diff (service_detectors lib)) remote
          req
        ≡ reply resp)

-- Rejected, or left to a review by the fallback.
abbrev pub IsStopped : Verdict → Type 0
IsStopped v = (v.decision ≡ rejected) ⊎ ((v.source ≡ Source.fallback) × (v.decision ≡ needs_review))

-- An answer of a fallback stage that does not let the change through.
abbrev Refuses : {E : Type 0} → StageResult × GoError × E → Type 0
Refuses (out, er, e) =
    (is_err er ≡ true) ⊎ ((is_err er ≡ false) × (consolidate out.findings ≡ rejected))
