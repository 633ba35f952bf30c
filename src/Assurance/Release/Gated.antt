-- ===== src/Assurance/Release/Gated.antt =====
-- What the release command has done where it reports no error.
use membrane_ai.Base.{
  ◌≡◌, ◌≢◌, ◌↔◌, sym, ap, ◌∙◌, true, false, ◌||◌, not, [], bytes, ◌==◌, ==_refl, is_blank, arith,
  inl, inr, Bool-cases,
}
use membrane_ai.Base.Int.{is_pos}
use membrane_ai.Errs.{nil, ok}
use membrane_ai.Assurance.Status.{warn, block}
use membrane_ai.Assurance.Status.Mapping.{IsCleanRun}
use membrane_ai.Assurance.Contract.{Time, ReleaseEvidence}
use membrane_ai.Assurance.Build.{EvalResultRef, build_release_evidence, with_status}
use membrane_ai.Assurance.Build.FailSafe.{build_release_evidence-pass}
use membrane_ai.Assurance.Scm.{map_scm_status}
use membrane_ai.Assurance.Scm.GitHub.{GitHub, new_github}
use membrane_ai.Assurance.Scm.Outcomes.{map_scm_status_outcomes}
use membrane_ai.Assurance.Scm.Posted.{IsPosted}
use membrane_ai.Assurance.Store.{file_of, file_get}
use membrane_ai.Assurance.Store.Memory.{RoundTrips}
use membrane_ai.Assurance.Release.{ScanSummary, code_verdict_of, fetch_eval}
use membrane_ai.Assurance.Release.Command.{
  Flags, World, Libs, input_of, mode_of, read_scan, posted, conclude_run, run_command,
}
use membrane_ai.Assurance.Release.Steps.{conclude_run-nil}

code_verdict_clean :
    (s : ScanSummary)
    → (((code_verdict_of s).0 ≢ block) × ((code_verdict_of s).0 ≢ warn))
      ↔ ((is_pos s.blocking ≡ false) × (is_pos s.warnings ≡ false))
unfolding code_verdict_of
code_verdict_clean s = ground arith

module _ {W : Type 0} (libs : Libs W) where
  -- The command goes on to the record once it has the scan and the evaluation.
  went_on :
      (f : Flags) (wall now : Time) (w w' : World W) (scan : ScanSummary) (ref : EvalResultRef)
      → f.regenerate ≡ []
      → read_scan libs f.scan_json w ≡ ok scan
      → (fetch_eval libs.url libs.twin f.eval w.net).1 ≡ ok ref
      → run_command libs f wall now w ≡ (nil, w')
      → conclude_run libs f
          (record w { net = (fetch_eval libs.url libs.twin f.eval w.net).0 })
          (build_release_evidence wall (input_of f now scan ref))
        ≡ (nil, w')
  unfolding run_command
  went_on f wall now w w' scan ref fresh read fetched ran =
      elim (Bool-cases (f.scan_json == [] || f.repo == [] || f.commit == [])) [
        | inl missing ↦ absurd (ground (arith, ran, fresh, missing, ==_refl []))
        | inr present ↦
            let there : not (f.regenerate == []) ≡ false =
              ap (λ s. not (s == [])) fresh ∙ ap not (==_refl []) in
            (simp (there, present, read, fetched) at ran)
      ]

  gated :
      (f : Flags) (wall now : Time) (scan : ScanSummary) (ref : EvalResultRef)
      (ev : ReleaseEvidence)
      → build_release_evidence wall (input_of f now scan ref) ≡ ok ev
      → ((map_scm_status ev (mode_of f)).state ≡ bytes "success") ↔ (
          IsCleanRun (with_status ref.counts ref.raw_status)
          × (is_pos scan.blocking ≡ false)
          × (is_pos scan.warnings ≡ false))
  unfolding input_of
  gated f wall now scan ref ev built =
      let (shown, shows) = (map_scm_status_outcomes ev (mode_of f)).0 in
      let (passes, passed) = build_release_evidence-pass wall (input_of f now scan ref) ev built in
      let (clear, unclear) = code_verdict_clean scan in
      (
        (λ e.
            let (run, not_block, not_warn) = passes (shown e) in
            let (none, few) = clear (not_block, not_warn) in (run, none, few)),
        (λ (run, none, few).
            let (not_block, not_warn) = unclear (none, few) in
            shows (passed (run, not_block, not_warn))),
      )

  -- What the command has done where it has a store and a token, is to publish, has made a record of a
  -- scan and of an evaluation, and reports no error: the commit status of the record is the state
  -- "success" exactly if the evaluation is clean and the scan has neither a blocking finding nor a
  -- warning; GitHub has answered 201 to a request for the commit with that state; and the record is
  -- got back from the store, if its file can be read and written and it survives its rendering.
  pub run_command-IsGated :
      (f : Flags) (wall now : Time) (w w' : World W) (scan : ScanSummary) (ref : EvalResultRef)
      (ev : ReleaseEvidence)
      → f.regenerate ≡ []
      → f.store ≢ []
      → f.publish_scm ≡ true
      → is_blank f.github_token ≡ false
      → read_scan libs f.scan_json w ≡ ok scan
      → (fetch_eval libs.url libs.twin f.eval w.net).1 ≡ ok ref
      → build_release_evidence wall (input_of f now scan ref) ≡ ok ev
      → RoundTrips libs.codec ev
      → w.evidence.read_fault (file_of ev.release_id) ≡ nil
      → w.evidence.write_fault (file_of ev.release_id) ≡ nil
      → run_command libs f wall now w ≡ (nil, w')
      → (((map_scm_status ev (mode_of f)).state ≡ bytes "success") ↔ (
          IsCleanRun (with_status ref.counts ref.raw_status)
          × (is_pos scan.blocking ≡ false)
          × (is_pos scan.warnings ≡ false)))
        × (file_get libs.codec ev.release_id w'.evidence ≡ ok ev)
        × (g : GitHub) × (new_github f.github_base f.github_token ≡ ok g)
        × IsPosted libs.github g
            (fetch_eval libs.url libs.twin f.eval w.net).0
            (map_scm_status ev (mode_of f))
  run_command-IsGated f wall now w w' scan ref ev fresh stored wanted token read fetched built trips
        readable writable ran =
      let w1 = record w { net = (fetch_eval libs.url libs.twin f.eval w.net).0 } in
      let went = went_on f wall now w w' scan ref fresh read fetched ran in
      let (persists, publishes) =
        conclude_run-nil libs f w1 w' ev (ap (conclude_run libs f w1) (sym built) ∙ went) in
      let (g, made, posted) = publishes wanted token in
      (gated f wall now scan ref ev built, persists stored trips readable writable, g, made, posted)
