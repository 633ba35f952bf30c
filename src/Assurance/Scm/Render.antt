-- ===== src/Assurance/Scm/Render.antt =====
-- pkg/assurance/render.go: the report of the evidence. `json.MarshalIndent` is a parameter.
use membrane_ai.Base.{suc, Option, none, some, List, [], ◌∷◌, ◌++◌, Str, bytes}
use membrane_ai.Base.Int.{ℤ, pos, negsuc}
use membrane_ai.Base.Decimal.{decimal}
use membrane_ai.Base.Maps.{lookup}
use membrane_ai.Errs.{internal_err, Result, ok, err}
use membrane_ai.Assurance.Status.{decision_string, status_string}
use membrane_ai.Assurance.Contract.{ScenarioOutcome, ReleaseEvidence}

-- `strings.Join(xs, ", ")`
unfoldable pub join_comma : List Str → Str
join_comma [] = []
join_comma (x ∷ []) = x
join_comma (x ∷ y ∷ xs) = x ++ bytes ", " ++ join_comma (y ∷ xs)

-- `joinOr`
unfoldable pub join_or : List Str → Str → Str
unfolding join_comma
join_or [] empty = empty
join_or (x ∷ xs) empty = join_comma (x ∷ xs)

-- `RenderJSON`
unfoldable pub render_json : (ReleaseEvidence → Result Str) → ReleaseEvidence → Result Str
render_json marshal ev = elim (marshal ev) [
  | ok b ↦ ok b
  | err e ↦ err (internal_err (bytes "assurance.RenderJSON") (bytes "marshal evidence") e)
]

-- `%d` of an `int`.
abbrev number_text : ℤ → Str
number_text (pos n) = decimal n
number_text (negsuc n) = b'-' ∷ decimal (suc n)

-- The value of a missing key is zero.
abbrev or_zero : Option ℤ → ℤ
or_zero none = pos 0
or_zero (some n) = n

critical_lines : List ScenarioOutcome → Str
critical_lines [] = []
critical_lines (c ∷ rest) =
    (bytes "- **" ++ c.scenario ++ bytes "** (" ++ c.severity ++ bytes ")\n") ++ critical_lines rest

scenario_lines : List ScenarioOutcome → Str
scenario_lines [] = []
scenario_lines (s ∷ rest) =
    (bytes "| "
      ++ s.scenario
      ++ bytes " | "
      ++ s.severity
      ++ bytes " | "
      ++ s.status
      ++ bytes " |\n")
    ++ scenario_lines rest

unfoldable pub critical_section : List ScenarioOutcome → Str
unfolding critical_lines
critical_section [] = []
critical_section (c ∷ cs) =
    bytes "## Critical failures\n\n" ++ critical_lines (c ∷ cs) ++ bytes "\n"

unfoldable pub scenario_section : List ScenarioOutcome → Str
unfolding scenario_lines
scenario_section [] = []
scenario_section (s ∷ ss) =
    bytes "## Scenarios\n\n| Scenario | Severity | Classification |\n| --- | --- | --- |\n"
    ++ scenario_lines (s ∷ ss)

-- The lines of `RenderMarkdown` above its sections.
unfoldable pub markdown_head : ReleaseEvidence → Str
markdown_head ev =
    bytes "# Release evidence — "
    ++ ev.agent_id
    ++ bytes " "
    ++ ev.baseline_version
    ++ bytes " → "
    ++ ev.candidate_version
    ++ bytes "\n\n- **Gate decision:** "
    ++ decision_string ev.gate_decision
    ++ bytes "\n- Triggered rules: "
    ++ join_or ev.triggered_rules (bytes "none")
    ++ bytes "\n- Code verdict: "
    ++ decision_string ev.code_verdict
    ++ bytes " ("
    ++ number_text (or_zero (lookup (bytes "blocking") ev.findings_summary))
    ++ bytes " blocking)\n- Agent eval status: "
    ++ status_string ev.overall_status
    ++ bytes "\n- Evaluation run: "
    ++ ev.evaluation_run_id
    ++ bytes " · seed "
    ++ ev.run_seed
    ++ bytes "\n- Repository: "
    ++ ev.repository
    ++ bytes " @ "
    ++ ev.commit_sha
    ++ bytes "\n- Release: "
    ++ ev.release_id
    ++ bytes " · correlation "
    ++ ev.correlation_id
    ++ bytes "\n- Snapshot: "
    ++ ev.snapshot_hash
    ++ bytes "\n\n"

unfoldable pub render_markdown : ReleaseEvidence → Str
unfolding markdown_head critical_section scenario_section
render_markdown ev =
    markdown_head ev ++ critical_section ev.critical_failures ++ scenario_section ev.per_scenario
