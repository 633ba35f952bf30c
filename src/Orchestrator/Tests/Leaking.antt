-- ===== src/Orchestrator/Tests/Leaking.antt =====
-- The theorem on secrets at a concrete change, with a client that calls the service directly.
use membrane_ai.Base.{ℕ, [], ◌∷◌, bytes}
use membrane_ai.Errs.{plain, Result, ok, err}
use membrane_ai.Scan.Tests.{lib, two_lines}
use membrane_ai.Analyzer.Analyze.{analyze_diff}
use membrane_ai.Analyzer.Detectors.{service_detectors}
use membrane_ai.Analyzer.Server.{AnalyzeResponse, Reply, reply, refuse, serve_analyze}
use membrane_ai.Orchestrator.Verdict.{Submission}
use membrane_ai.Orchestrator.Saga.{ProcessSubmission}
use membrane_ai.Orchestrator.Memory.{Memory}
use membrane_ai.Orchestrator.Stages.{AnalyzerClient, grpc_stage, secret_scan}
use membrane_ai.Orchestrator.Tests.{submitted, saga}

abbrev delivered : Reply → Result AnalyzeResponse
delivered (reply resp) = ok resp
delivered (refuse e) = err (plain e.message)

-- Each call reaches the service.
abbrev direct : AnalyzerClient (Memory ℕ)
direct ctx req e =
    (delivered (serve_analyze lib.to_lower (analyze_diff (service_detectors lib)) ctx req), e)

abbrev key_submission : Submission
key_submission = submitted (bytes "s1") two_lines

abbrev guarded : ProcessSubmission (Memory ℕ)
guarded = record saga { stages = grpc_stage direct ∷ []; fallback = secret_scan lib }
