-- ===== src/Analyzer/Server.antt =====
-- services/analyzer/internal/adapters/grpcserver/server.go, over the messages of
-- membrane.analyzer.v1. An error of a call is its code with its text.
use Prim.Native.Nat.{◌^◌, ◌%◌}
use membrane_ai.Base.{◌-◌, List, [], ◌∷◌, Str, ltb, if◌then◌else◌}
use membrane_ai.Base.Int.{ℤ, pos, negsuc}
use membrane_ai.Base.Context.{Context}
use membrane_ai.Errs.{GoError, Kind, kind_of, error_string, Result, ok, err}
use membrane_ai.Analyzer.Analyze.{Input, new_input, Severity, Finding, Analysis}

-- The enum of the wire; `other` is a number that has no name.
pub data ProtoSeverity : Type 0 where
  unspecified info warning blocking : ProtoSeverity
  other : ℤ → ProtoSeverity

pub record ProtoFinding : Type 0 where
  pub rule : Str
  pub severity : ProtoSeverity
  pub message : Str
  pub line : ℤ

pub record AnalyzeRequest : Type 0 where
  pub submission_id : Str
  pub organization_id : Str
  pub repository : Str
  pub file_path : Str
  pub language : Str
  pub diff : Str

pub record AnalyzeResponse : Type 0 where
  pub findings : List ProtoFinding
  pub masked_diff : Str

pub data Code : Type 0 where
  invalid_argument unavailable internal : Code

-- `status.Error`
pub record StatusError : Type 0 where
  pub code : Code
  pub message : Str

pub data Reply : Type 0 where
  reply : AnalyzeResponse → Reply
  refuse : StatusError → Reply

-- `severityToProto`
unfoldable pub severity_to_proto : Severity → ProtoSeverity
severity_to_proto Severity.info = ProtoSeverity.info
severity_to_proto Severity.warning = ProtoSeverity.warning
severity_to_proto Severity.blocking = ProtoSeverity.blocking
severity_to_proto (Severity.other s) = ProtoSeverity.unspecified

-- The conversion of an `int` to an `int32`.
unfoldable pub int32 : ℤ → ℤ
int32 (pos n) = let m = n % 2 ^ 32 in if ltb m (2 ^ 31) then pos m else negsuc (2 ^ 32 - 1 - m)
int32 (negsuc n) = let m = n % 2 ^ 32 in if ltb m (2 ^ 31) then negsuc m else pos (2 ^ 32 - 1 - m)

abbrev pub to_proto : Finding → ProtoFinding
to_proto f = record {
  rule = f.rule;
  severity = severity_to_proto f.severity;
  message = f.message;
  line = int32 f.line;
}

unfoldable pub findings_to_proto : List Finding → List ProtoFinding
findings_to_proto [] = []
findings_to_proto (f ∷ fs) = to_proto f ∷ findings_to_proto fs

-- The code that `statusFromErr` gives to a kind.
abbrev code_for : Kind → Code
code_for Kind.validation = Code.invalid_argument
code_for Kind.unavailable = Code.unavailable
code_for _ = Code.internal

-- `statusFromErr`
unfoldable pub status_from_err : GoError → StatusError
status_from_err e = record { code = code_for (kind_of e); message = error_string e }

abbrev pub answered : Result Analysis → Reply
answered (err e) = refuse (status_from_err e)
answered (ok res) =
    reply (record { findings = findings_to_proto res.findings; masked_diff = res.masked_diff })

-- `Server.Analyze` on what `NewInput` answers.
unfoldable pub serve_input : (Context → Input → Result Analysis) → Context → Result Input → Reply
serve_input analyze ctx (err e) = refuse (status_from_err e)
serve_input analyze ctx (ok input) = answered (analyze ctx input)

-- `Server.Analyze`
unfoldable pub serve_analyze :
    (Str → Str) → (Context → Input → Result Analysis) → Context → AnalyzeRequest → Reply
unfolding serve_input
serve_analyze lower analyze ctx req = serve_input analyze ctx (
    new_input lower req.submission_id req.organization_id req.repository req.file_path req.language
      req.diff)
