-- ===== src/Orchestrator/Memory/Replay.antt =====
-- The verdict cache of the in-memory saga: what is stored, and what a later submission gets.
use membrane_ai.Base.{◌≡◌, refl, ap, ◌∙◌, none, some, List, [], ◌∷◌, ◌++◌, Str, ==_refl}
use membrane_ai.Base.Maps.{lookup, insert, lookup-insert}
use membrane_ai.Errs.{ok}
use membrane_ai.Orchestrator.Verdict.{
  Submission, Verdict, Source, pipeline, stamp_source, strip_source, cache_key,
}
use membrane_ai.Orchestrator.Saga.{
  Context, AnalysisStage, Clock, Options, ProcessSubmission, analyze, handle, handle_hit,
  handle_miss, remember, publish_or_fail, new_process_submission, with_defaults,
}
use membrane_ai.Orchestrator.Memory.{Memory, in_memory, cache_get, cache_set, publish}

-- `v` as it is sent for a submission that hits the cache.
abbrev pub replayed : Verdict → Submission → Verdict
replayed v sub = record {
  submission_id = sub.submission_id;
  organization_id = sub.organization_id;
  decision = v.decision;
  source = Source.cache;
  ruleset_version = v.ruleset_version;
  findings = v.findings;
  evaluated_at = v.evaluated_at;
  repository = sub.repository;
  commit_sha = sub.commit_sha;
  pr_number = sub.pr_number;
}

abbrev pub key_for : (Str → Str) → Options → Submission → Str
key_for blake3 opts sub = cache_key blake3 sub.diff (with_defaults opts).ruleset_version

module _ {W : Type 0} (stages : List (AnalysisStage W)) (fallback : AnalysisStage W)
    (clock : Clock W) (opts : Options) (blake3 : Str → Str) (ctx : Context) (sub : Submission) where
  abbrev uc : ProcessSubmission (Memory W)
  uc = in_memory stages fallback clock opts

  abbrev key_of : Str
  key_of = key_for blake3 opts sub

  -- A hit sends what is stored, under the identity of the submission at hand, and runs no stage.
  handle-hit :
      (m : Memory W) (v : Verdict)
      → lookup key_of m.store ≡ some v
      → handle uc ctx sub blake3 m
        ≡ (ok (replayed v sub), record m { verdicts = m.verdicts ++ replayed v sub ∷ [] })
  unfolding handle handle_hit publish_or_fail in_memory new_process_submission cache_get publish
      stamp_source
  handle-hit m v found = rw (found, cache_get)

  handle-miss :
      (m : Memory W)
      → lookup key_of m.store ≡ none
      → handle uc ctx sub blake3 m ≡ handle_miss uc ctx sub key_of m
  unfolding handle in_memory new_process_submission cache_get
  handle-miss m missed = rw (missed, cache_get)

  remember-pipeline :
      (key : Str) (v : Verdict) (s : Source) (m : Memory W)
      → s ≡ pipeline
      → remember uc ctx sub key v s m ≡ record m { store = insert key (strip_source v) m.store }
  unfolding remember in_memory new_process_submission cache_set
  remember-pipeline key v pipeline m e = refl
  remember-pipeline key v _ m e = cc

  handle_miss-lem :
      (key : Str) (m : Memory W)
      → let (v, m') = analyze uc ctx sub m in
        let m'' = remember uc ctx sub key v v.source m' in
        handle_miss uc ctx sub key m ≡ (ok v, record m'' { verdicts = m''.verdicts ++ v ∷ [] })
  unfolding handle_miss publish_or_fail in_memory new_process_submission publish
  handle_miss-lem key m = refl

  -- After a miss that the pipeline decides, its verdict is stored.
  lookup-handle_miss :
      (m : Memory W)
      → lookup key_of m.store ≡ none
      → (analyze uc ctx sub m).0.source ≡ pipeline
      → lookup key_of (handle uc ctx sub blake3 m).1.store
        ≡ some (strip_source (analyze uc ctx sub m).0)
  lookup-handle_miss m missed pipelined =
      let (v, m') = analyze uc ctx sub m in
      let stored = remember-pipeline key_of v v.source m' pipelined in
      ap (λ r. lookup key_of r.1.store) (handle-miss m missed ∙ handle_miss-lem key_of m)
      ∙ ap (λ n. lookup key_of n.store) stored
      ∙ lookup-insert key_of key_of (strip_source v) m'.store
      ∙ rw (==_refl key_of)

  handle_miss-source :
      (m : Memory W)
      → lookup key_of m.store ≡ none
      → (handle uc ctx sub blake3 m).0 ≡ ok (analyze uc ctx sub m).0
  handle_miss-source m missed = ap (λ r. r.0) (handle-miss m missed ∙ handle_miss-lem key_of m)

-- A submission whose diff has been decided by the pipeline before gets the same decision, findings,
-- ruleset version and time of evaluation under its own identity and coordinates, with source
-- cache. The call publishes this verdict and changes nothing else: no stage runs, whichever stages
-- and clock the second saga has, as long as the two have the same options.
pub handle_replays :
    {W : Type 0} (stages stages' : List (AnalysisStage W)) (fallback fallback' : AnalysisStage W)
    (clock clock' : Clock W) (opts : Options) (blake3 : Str → Str) (ctx ctx' : Context)
    (sub sub' : Submission) (m : Memory W)
    → lookup (key_for blake3 opts sub) m.store ≡ none
    → (analyze (in_memory stages fallback clock opts) ctx sub m).0.source ≡ pipeline
    → sub'.diff ≡ sub.diff
    → let v = (analyze (in_memory stages fallback clock opts) ctx sub m).0 in
      let m1 = (handle (in_memory stages fallback clock opts) ctx sub blake3 m).1 in
      handle (in_memory stages' fallback' clock' opts) ctx' sub' blake3 m1
      ≡ (ok (replayed v sub'), record m1 { verdicts = m1.verdicts ++ replayed v sub' ∷ [] })
unfolding strip_source
handle_replays stages stages' fallback fallback' clock clock' opts blake3 ctx ctx' sub sub' m missed
      pipelined same_diff =
    let v = (analyze (in_memory stages fallback clock opts) ctx sub m).0 in
    let m1 = (handle (in_memory stages fallback clock opts) ctx sub blake3 m).1 in
    handle-hit stages' fallback' clock' opts blake3 ctx' sub' m1 (strip_source v) (
      ap (λ d. lookup (cache_key blake3 d (with_defaults opts).ruleset_version) m1.store) same_diff
      ∙ lookup-handle_miss stages fallback clock opts blake3 ctx sub m missed pipelined)
