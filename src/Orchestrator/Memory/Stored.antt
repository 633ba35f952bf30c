-- ===== src/Orchestrator/Memory/Stored.antt =====
-- What the in-memory saga keeps in its verdict cache, and its journal of published verdicts.
use membrane_ai.Base.{
  not, ◌&&◌, ◌≡◌, refl, sym, List, [], ◌∷◌, Str, map, All, inl, inr, Bool-cases, ◌==◌,
}
use mathlib.Core.Path.{subst}
use membrane_ai.Base.Maps.{insert}
use membrane_ai.Errs.{is_err}
use membrane_ai.Orchestrator.Verdict.{
  Submission, Verdict, Source, pipeline, strip_source, cache_key,
}
use membrane_ai.Orchestrator.Saga.{
  Context, AnalysisStage, Clock, Options, ProcessSubmission, new_process_submission, analyze,
  handle, handle_hit, handle_miss, remember, publish_or_fail,
}
use membrane_ai.Orchestrator.Saga.Quiet.{IsQuiet, StageIsQuiet, analyze-quiet}
use membrane_ai.Orchestrator.Saga.Publishing.{Journal}
use membrane_ai.Orchestrator.Memory.{
  Memory, in_memory, lift_stage, lift_clock, cache_get, cache_set, publish,
}

-- A stored verdict names no submission and no source coordinates, and comes from the pipeline.
abbrev pub IsClean : Str × Verdict → Type 0
IsClean (key, v) = (strip_source v ≡ v) × (v.source ≡ pipeline)

insert-IsClean :
    (key : Str) (v : Verdict) (store : List (Str × Verdict))
    → v.source ≡ pipeline
    → All IsClean store
    → All IsClean (insert key (strip_source v) store)
unfolding insert
insert-IsClean key v [] source h =
    ((unfold strip_source in refl, unfold strip_source in source), tt)
insert-IsClean key v ((k, w) ∷ store) source (c, h) = elim (Bool-cases (k == key)) [
  | inl same ↦ rw same ((unfold strip_source in refl, unfold strip_source in source), h)
  | inr other ↦ rw other (c, insert-IsClean key v store source h)
]

module _ {W : Type 0} where
  lift-quiet :
      {O : Type 0} (observe : Memory W → O)
      → ((m : Memory W) (w : W) → observe (record m { outside = w }) ≡ observe m)
      → (stages : List (AnalysisStage W)) → All (StageIsQuiet observe) (map lift_stage stages)
  lift-quiet observe keeps [] = tt
  lift-quiet observe keeps (s ∷ stages) =
      (λ ctx sub m. unfold lift_stage in keeps m _, lift-quiet observe keeps stages)

  module _ (stages : List (AnalysisStage W)) (fallback : AnalysisStage W) (clock : Clock W)
      (opts : Options) where
    abbrev saga : ProcessSubmission (Memory W)
    saga = in_memory stages fallback clock opts

    in_memory-IsQuiet :
        {O : Type 0} (observe : Memory W → O)
        → ((m : Memory W) (w : W) → observe (record m { outside = w }) ≡ observe m)
        → IsQuiet observe saga
    unfolding in_memory new_process_submission lift_stage lift_clock
    in_memory-IsQuiet observe keeps = record {
      now_quiet = λ m. keeps m _;
      stages_quiet = lift-quiet observe keeps stages;
      fallback_quiet = λ ctx sub m. keeps m _;
    }

    -- The in-memory publisher keeps the journal that the saga's theorem on publishing asks for.
    pub in_memory-Journal : Journal saga (λ m. m.verdicts)
    unfolding in_memory new_process_submission cache_get cache_set publish
    in_memory-Journal = record {
      publish_adds = λ ctx v m e. refl;
      get_quiet = λ ctx k m. refl;
      set_quiet = λ ctx k v m. refl;
      quiet = in_memory-IsQuiet (λ m. m.verdicts) (λ m w. refl);
    }

    module _ (ctx : Context) (sub : Submission) where
      remember-IsClean :
          (key : Str) (v : Verdict) (s : Source) (m : Memory W)
          → v.source ≡ s
          → All IsClean m.store
          → All IsClean (remember saga ctx sub key v s m).store
      unfolding remember in_memory new_process_submission cache_set
      remember-IsClean key v pipeline m source h = insert-IsClean key v m.store source h
      remember-IsClean key v _ m source h = h

      publish_or_fail-store :
          (msg : Str) (v : Verdict) (m : Memory W)
          → (publish_or_fail saga ctx sub msg v m).1.store ≡ m.store
      unfolding publish_or_fail in_memory new_process_submission publish
      publish_or_fail-store msg v m = refl

      handle_hit-store :
          (cached : Verdict) (m : Memory W) → (handle_hit saga ctx sub cached m).1.store ≡ m.store
      unfolding handle_hit
      handle_hit-store cached m = publish_or_fail-store _ _ m

      get-eq : (key : Str) (m : Memory W) → (saga.cache.get ctx key m).3 ≡ m
      unfolding in_memory new_process_submission cache_get
      get-eq key m = refl

      handle_miss-IsClean :
          (key : Str) (m : Memory W)
          → All IsClean m.store
          → All IsClean (handle_miss saga ctx sub key m).1.store
      unfolding handle_miss
      handle_miss-IsClean key m h =
          let (v, m') = analyze saga ctx sub m in
          let same =
            analyze-quiet (λ (n : Memory W). n.store) saga (in_memory-IsQuiet _ (λ n w. refl)) ctx
              sub m in
          subst (All IsClean) (sym (publish_or_fail-store _ _ _))
            (remember-IsClean key v v.source m' refl (subst (All IsClean) (sym same) h))

      -- Every verdict in the cache is stripped of submission, organisation, repository, commit
      -- and pull request, and comes from the pipeline: `Handle` keeps it so, on every path.
      pub handle-IsClean :
          (blake3 : Str → Str) (m : Memory W)
          → All IsClean m.store
          → All IsClean (handle saga ctx sub blake3 m).1.store
      unfolding handle
      handle-IsClean blake3 m h =
          let key = cache_key blake3 sub.diff saga.opts.ruleset_version in
          let (cached, hit, er, m') = saga.cache.get ctx key m in
          let h' = subst (λ (n : Memory W). All IsClean n.store) (sym (get-eq key m)) h in
          elim (Bool-cases (not (is_err er) && hit)) [
            | inl found ↦ rw found (subst (All IsClean) (sym (handle_hit-store cached m')) h')
            | inr missed ↦ rw missed (handle_miss-IsClean key m' h')
          ]
