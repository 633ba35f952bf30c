-- ===== src/Analyzer/Analyze.antt =====
-- services/analyzer/internal/domain/analysis.go, the ports of detectors.go beside it, and
-- internal/app/analyze.go. A detector is pure, so the chain has no state but the context, which
-- may be cancelled: what a detector finds or fails with is a function of the context and the
-- input.
pub mod Chain
use membrane_ai.Base.{
  Option, none, some, List, [], ◌∷◌, ◌++◌, Str, bytes, is_blank, trim_space, if◌then◌else◌,
}
use membrane_ai.Base.Int.{ℤ}
use membrane_ai.Base.Context.{Context}
use membrane_ai.Errs.{GoError, nil, validation_err, internal_err, Result, ok, err}

pub record Input : Type 0 where
  pub submission_id : Str
  pub organization_id : Str
  pub repository : Str
  pub file_path : Str
  pub language : Str
  pub diff : Str

abbrev op_input : Str
op_input = bytes "analyzer.domain.NewInput"

-- `NewInput`. `lower` is `strings.ToLower`.
unfoldable pub new_input :
    (lower : Str → Str)
    → (submission_id org_id repository file_path language diff : Str) → Result Input
new_input lower submission_id org_id repository file_path language diff =
    if is_blank diff
    then err (validation_err op_input (bytes "diff is required") nil)
    else ok (record {
      submission_id = trim_space submission_id;
      organization_id = trim_space org_id;
      repository = trim_space repository;
      file_path = trim_space file_path;
      language = lower (trim_space language);
      diff = diff;
    })

-- A `type Severity string`: `other` holds a string that is none of the constants.
pub data Severity : Type 0 where
  info warning blocking : Severity
  other : Str → Severity

pub record Finding : Type 0 where
  pub rule : Str
  pub severity : Severity
  pub message : Str
  pub line : ℤ

-- `Result` of the domain.
pub record Analysis : Type 0 where
  pub findings : List Finding
  pub masked_diff : Str

-- A `Detector`; `mask` is there if it is a `Masker` too.
pub record Detector : Type 0 where
  pub name : Str
  pub detect : Context → Input → Result (List Finding)
  pub mask : Option (Str → Str)

-- `if m, ok := det.(domain.Masker); ok { masked = m.Mask(masked) }`
unfoldable pub masked_by : Option (Str → Str) → Str → Str
masked_by none masked = masked
masked_by (some mask) masked = mask masked

abbrev op_analyze : Str
op_analyze = bytes "analyzer.app.AnalyzeDiff"

-- What the loop does with the answer of a detector; `next` is the rest of the loop.
abbrev pub after :
    Detector → Result (List Finding) → (List Finding → Result Analysis) → Result Analysis
after det (err e) next =
    err (internal_err op_analyze (bytes "detector " ++ det.name ++ bytes " failed") e)
after det (ok out) next = next out

-- The loop of `AnalyzeDiff.Handle`, over the findings and the masked diff so far.
unfoldable pub run_chain : Context → Input → List Finding → Str → List Detector → Result Analysis
unfolding masked_by
run_chain ctx input findings masked [] = ok (record { findings = findings; masked_diff = masked })
run_chain ctx input findings masked (det ∷ dets) =
    after det (det.detect ctx input)
      (λ out. run_chain ctx input (findings ++ out) (masked_by det.mask masked) dets)

-- `AnalyzeDiff.Handle`
unfoldable pub analyze_diff : List Detector → Context → Input → Result Analysis
unfolding run_chain
analyze_diff detectors ctx input = run_chain ctx input [] input.diff detectors
