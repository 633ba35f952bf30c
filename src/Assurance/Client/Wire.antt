-- ===== src/Assurance/Client/Wire.antt =====
-- pkg/assurance/httpclient.go: the wire shapes of AgentTwin, and their mapping to a result.
use membrane_ai.Base.{Option, none, some, List, [], ◌∷◌, ◌++◌, map, Str, bytes, suc}
use membrane_ai.Base.Int.{ℤ, pos, negsuc}
use membrane_ai.Base.Decimal.{decimal}
use membrane_ai.Assurance.Contract.{ScenarioOutcome}
use membrane_ai.Assurance.Build.{EvalResultRef}

pub record ClassCounts : Type 0 where
  pub new_critical_failure : ℤ
  pub regressed : ℤ
  pub improved : ℤ
  pub unchanged : ℤ
  pub incomplete : ℤ

pub record EvalRun : Type 0 where
  pub id : Str
  pub project_id : Str
  pub agent_name : Str
  pub baseline_version : Str
  pub candidate_version : Str
  pub seed : Option ℤ
  pub status : Str
  pub counts : ClassCounts
  pub baseline_run_id : Option Str
  pub candidate_run_id : Option Str

-- The summary, which `mapEvalDetail` does not read.
pub record EvalSummary : Type 0 where
  pub new_critical_failures : List Str
  pub regressed : List Str

pub record EvalCase : Type 0 where
  pub scenario_name : Str
  pub severity : Str
  pub classification : Str

pub record EvalDetail : Type 0 where
  pub run : EvalRun
  pub summary : Option EvalSummary
  pub cases : List EvalCase

-- `strconv.Itoa`
unfoldable pub itoa : ℤ → Str
unfolding decimal
itoa (pos n) = decimal n
itoa (negsuc n) = b'-' ∷ decimal (suc n)

abbrev seed_text : Option ℤ → Str
seed_text none = bytes "unset"
seed_text (some n) = itoa n

abbrev present : Option Str → List Str
present none = []
present (some s) = s ∷ []

abbrev pub outcome_of : EvalCase → ScenarioOutcome
outcome_of c = record {
  scenario = c.scenario_name;
  status = c.classification;
  severity = c.severity;
  evidence_urls = [];
}

-- `mapEvalDetail`; the counts that it does not set are zero values.
unfoldable pub map_eval_detail : EvalDetail → EvalResultRef
map_eval_detail d = record {
  evaluation_run_id = d.run.id;
  agent_twin_project = d.run.project_id;
  baseline_version = d.run.baseline_version;
  candidate_version = d.run.candidate_version;
  seed = seed_text d.run.seed;
  raw_status = d.run.status;
  counts = record {
    raw_status = [];
    new_critical_failures = d.run.counts.new_critical_failure;
    regressed = d.run.counts.regressed;
    incomplete = d.run.counts.incomplete;
    errored = pos 0;
  };
  scenario_selection = map (λ (c : EvalCase). c.scenario_name) d.cases;
  per_scenario = map outcome_of d.cases;
  simulation_pair_ids = present d.run.baseline_run_id ++ present d.run.candidate_run_id;
  engine_version = [];
  evaluator_version = [];
}
