-- ===== src/Assurance/Release/Steps.antt =====
-- The steps of the release command: what each has done where it reports no error.
use mathlib.Core.Path.{subst}
use membrane_ai.Base.{
  ◌≡◌, ◌≢◌, refl, sym, ap, ◌∙◌, Bool, true, false, [], Str, bytes, ◌==◌, ==_iff, is_blank, arith,
  inl, inr, Bool-cases, if◌then◌else◌,
}
use membrane_ai.Errs.{GoError, nil, is_err, Result, ok, err}
use membrane_ai.Assurance.Contract.{ReleaseEvidence}
use membrane_ai.Assurance.Client.{trim_right_slash}
use membrane_ai.Assurance.Scm.{ScmStatus, map_scm_status}
use membrane_ai.Assurance.Scm.GitHub.{GitHub, new_github}
use membrane_ai.Assurance.Scm.Posted.{IsPosted, publish_once-nil}
use membrane_ai.Assurance.Scm.Render.{render_json}
use membrane_ai.Assurance.Store.{Dir, file_of, file_get}
use membrane_ai.Assurance.Store.Memory.{RoundTrips}
use membrane_ai.Assurance.Store.Files.{file_get-put}
use membrane_ai.Assurance.Release.Command.{
  Flags, World, Libs, open_store, mode_of, emit, emitted, posted, publish_shadow, then_run, persist,
  conclude_run,
}

no_error : (er : GoError) → is_err er ≡ false → er ≡ nil
no_error er h = ground (arith, h)

new_github-ok :
    (base token : Str) → is_blank token ≡ false → (g : GitHub) × (new_github base token ≡ ok g)
unfolding new_github
new_github-ok base token h = (
  record {
    base_url = trim_right_slash (if is_blank base then bytes "https://api.github.com" else base);
    token = token;
  },
  rw h refl,
)

module _ {W : Type 0} (libs : Libs W) where
  then_run-nil :
      (er : GoError) (w w' : World W) (next : World W → GoError × World W)
      → then_run libs (er, w) next ≡ (nil, w')
      → (er ≡ nil) × (next w ≡ (nil, w'))
  then_run-nil er w w' next h = elim (Bool-cases (is_err er)) [
    | inl failed ↦ absurd (ground (arith, h, failed))
    | inr fine ↦ (no_error er fine, (rw fine at h))
  ]

  -- The publication and the output leave the store alone.
  emit-evidence :
      (ev : ReleaseEvidence) (out : Str) (w : World W)
      → (emit libs ev out w).1.evidence ≡ w.evidence
  unfolding emit
  emit-evidence ev out w = go (render_json libs.codec.render ev)
    where
      go : (r : Result Str) → (emitted libs ev out w r).1.evidence ≡ w.evidence
      go (err e) = refl
      go (ok json) = elim (Bool-cases (out == [])) [
        | inl plain ↦ rw plain refl
        | inr named ↦ rw named refl
      ]

  -- GitHub has the status, or there is no token.
  abbrev pub Publishes : Flags → ReleaseEvidence → W → Type 0
  Publishes f ev w =
      is_blank f.github_token ≡ false
      → (g : GitHub) × (new_github f.github_base f.github_token ≡ ok g)
        × IsPosted libs.github g w (map_scm_status ev (mode_of f))

  publish_shadow-nil :
      (f : Flags) (ev : ReleaseEvidence) (w : World W)
      → (publish_shadow libs f ev w).0 ≡ nil
      → Publishes f ev w.net
  unfolding publish_shadow
  publish_shadow-nil f ev w h token =
      let (g, made) = new_github-ok f.github_base f.github_token token in
      (
        g,
        made,
        publish_once-nil libs.github g w.net (map_scm_status ev (mode_of f))
            (rw (token, made) at h),
      )

  posted-evidence :
      (w : World W) (s : ScmStatus) (r : Result GitHub)
      → (posted libs w s r).1.evidence ≡ w.evidence
  posted-evidence w s (err e) = refl
  posted-evidence w s (ok g) = refl

  publish_shadow-evidence :
      (f : Flags) (ev : ReleaseEvidence) (w : World W)
      → (publish_shadow libs f ev w).1.evidence ≡ w.evidence
  unfolding publish_shadow
  publish_shadow-evidence f ev w = elim (Bool-cases (is_blank f.github_token)) [
    | inl none ↦ rw none refl
    | inr some ↦ rw some (posted-evidence w _ (new_github f.github_base f.github_token))
  ]

  -- The store holds the record, if there is a store whose files can be read and written.
  abbrev pub Persists : Flags → ReleaseEvidence → Dir → Dir → Type 0
  Persists f ev before after =
      f.store ≢ []
      → RoundTrips libs.codec ev
      → before.read_fault (file_of ev.release_id) ≡ nil
      → before.write_fault (file_of ev.release_id) ≡ nil
      → file_get libs.codec ev.release_id after ≡ ok ev

  persist-nil :
      (f : Flags) (ev : ReleaseEvidence) (w : World W)
      → (persist libs f ev w).0 ≡ nil
      → Persists f ev w.evidence (persist libs f ev w).1.evidence
        × ((persist libs f ev w).1.net ≡ w.net)
  unfolding persist
  persist-nil f ev w h = elim (Bool-cases (f.store == [])) [
    | inl none ↦ rw none ((λ some. absurd (some ((==_iff f.store []).0 none))), refl)
    | inr some ↦ elim (Bool-cases (is_err (open_store f.store w))) [
      | inl unopened ↦ absurd (ground (arith, h, some, unopened))
      | inr opened ↦
          rw (some, opened)
            (
              (λ stored trips readable writable.
                  file_get-put libs.codec ev w.evidence trips readable writable
                    (rw (some, opened) at h)),
              refl,
            )
    ]
  ]

  publish_if : Bool → Flags → ReleaseEvidence → World W → GoError × World W
  publish_if b f ev w = if b then publish_shadow libs f ev w else (nil, w)

  publish_if-nil :
      (b : Bool) (f : Flags) (ev : ReleaseEvidence) (w : World W)
      → (publish_if b f ev w).0 ≡ nil
      → (b ≡ true → Publishes f ev w.net) × ((publish_if b f ev w).1.evidence ≡ w.evidence)
  unfolding publish_if
  publish_if-nil true f ev w h =
      ((λ e. publish_shadow-nil f ev w h), publish_shadow-evidence f ev w)
  publish_if-nil false f ev w h = ((λ e. absurd (cc e)), refl)

  -- What the command has done with the record that it has built.
  abbrev pub Concludes : Flags → World W → World W → ReleaseEvidence → Type 0
  Concludes f w w' ev =
      Persists f ev w.evidence w'.evidence × (f.publish_scm ≡ true → Publishes f ev w.net)

  pub conclude_run-nil :
      (f : Flags) (w w' : World W) (ev : ReleaseEvidence)
      → conclude_run libs f w (ok ev) ≡ (nil, w')
      → Concludes f w w' ev
  unfolding conclude_run publish_if
  conclude_run-nil f w w' ev h =
      let w1 = (persist libs f ev w).1 in
      let w2 = (publish_if f.publish_scm f ev w1).1 in
      let (stored, later) =
        then_run-nil (persist libs f ev w).0 w1 w'
          (λ v. then_run libs (publish_if f.publish_scm f ev v) (λ u. emit libs ev f.out u)) h in
      let (sent, last) =
        then_run-nil (publish_if f.publish_scm f ev w1).0 w2 w' (λ u. emit libs ev f.out u) later in
      let (persists, same_net) = persist-nil f ev w stored in
      let (publishes, same_store) = publish_if-nil f.publish_scm f ev w1 sent in
      let kept : w'.evidence ≡ w1.evidence =
        ap (λ (r : GoError × World W). r.1.evidence) (sym last)
        ∙ emit-evidence ev f.out w2
        ∙ same_store in
      (
        subst (λ d. Persists f ev w.evidence d) (sym kept) persists,
        subst (λ n. f.publish_scm ≡ true → Publishes f ev n) same_net publishes,
      )
