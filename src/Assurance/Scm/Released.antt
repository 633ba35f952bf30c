-- ===== src/Assurance/Scm/Released.antt =====
-- From what AgentTwin answers to what the commit shows.
use mathlib.Core.Path.{subst}
use membrane_ai.Base.{◌≡◌, ◌≢◌, ◌↔◌, refl, sym, ap, false, bytes}
use membrane_ai.Base.Int.{is_pos}
use membrane_ai.Errs.{ok}
use membrane_ai.Assurance.Status.{warn, block, normalize_status}
use membrane_ai.Assurance.Status.Mapping.{IsCleanRun}
use membrane_ai.Assurance.Contract.{Time, ReleaseEvidence}
use membrane_ai.Assurance.Build.{BuildInput, build_release_evidence, with_status}
use membrane_ai.Assurance.Build.FailSafe.{build_release_evidence-pass}
use membrane_ai.Assurance.Client.Wire.{EvalDetail, map_eval_detail}
use membrane_ai.Assurance.Scm.{ScmMode, map_scm_status}
use membrane_ai.Assurance.Scm.Outcomes.{map_scm_status_outcomes}

-- An evaluation that AgentTwin reports as completed with no critical failure, regression or
-- incomplete scenario, by its wire counts.
pub record IsCleanDetail (d : EvalDetail) : Type 0 where
  pub finished : normalize_status d.run.status ≡ bytes "COMPLETED"
  pub none_incomplete : is_pos d.run.counts.incomplete ≡ false
  pub none_critical : is_pos d.run.counts.new_critical_failure ≡ false
  pub none_regressed : is_pos d.run.counts.regressed ≡ false

clean_detail :
    (d : EvalDetail)
    → IsCleanRun (with_status (map_eval_detail d).counts (map_eval_detail d).raw_status)
      ↔ IsCleanDetail d
unfolding with_status map_eval_detail
clean_detail d = (
  (λ c. record {
    finished = c.finished;
    none_incomplete = c.none_incomplete;
    none_critical = c.none_critical;
    none_regressed = c.none_regressed;
  }),
  (λ c. record {
    finished = c.finished;
    none_errored = refl;
    none_incomplete = c.none_incomplete;
    none_critical = c.none_critical;
    none_regressed = c.none_regressed;
  }),
)

-- The commit of a release that was built on the evaluation `d` shows the state "success" exactly if
-- `d` is clean by its status and its counts and the code verdict is neither BLOCK nor WARN, in every
-- mode and under every policy.
pub released_iff :
    (wall : Time) (b : BuildInput) (d : EvalDetail) (ev : ReleaseEvidence) (mode : ScmMode)
    → b.agent ≡ map_eval_detail d
    → build_release_evidence wall b ≡ ok ev
    → ((map_scm_status ev mode).state ≡ bytes "success")
      ↔ (IsCleanDetail d × (b.code_verdict ≢ block) × (b.code_verdict ≢ warn))
released_iff wall b d ev mode fetched built =
    let (shown, shows) = (map_scm_status_outcomes ev mode).0 in
    let (passes, passed) = build_release_evidence-pass wall b ev built in
    let (clean, unclean) = clean_detail d in
    let same : with_status b.agent.counts b.agent.raw_status
        ≡ with_status (map_eval_detail d).counts (map_eval_detail d).raw_status =
      ap (λ a. with_status a.counts a.raw_status) fetched in
    (
      λ e.
          let (run, not_block, not_warn) = passes (shown e) in
          (clean (subst IsCleanRun same run), not_block, not_warn),
      λ (run, not_block, not_warn).
          shows (passed (subst IsCleanRun (sym same) (unclean run), not_block, not_warn)),
    )
