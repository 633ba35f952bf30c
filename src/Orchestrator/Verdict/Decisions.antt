-- ===== src/Orchestrator/Verdict/Decisions.antt =====
-- What `Consolidate` decides, against a description that does not follow its loop.
use mathlib.Core.List.{Perm, Permᴰ}
use mathlib.Core.Logic.{∥∥₁_elim}
use membrane_ai.Base.{◌≡◌, refl, ◌∙◌, List, [], ◌∷◌, ◌++◌, arith, any, if◌then◌else◌}
use membrane_ai.Orchestrator.Verdict.{
  Finding, Decision, approved, needs_review, rejected, is_blocking, is_warning, consolidate_from,
  consolidate,
}

-- The decision by the gravest finding.
abbrev pub decision_of : List Finding → Decision
decision_of fs =
    if any (λ f. is_blocking f.severity) fs
    then rejected
    else if any (λ f. is_warning f.severity) fs
    then needs_review
    else approved

consolidate_from-review :
    (fs : List Finding)
    → consolidate_from needs_review fs
      ≡ (if any (λ f. is_blocking f.severity) fs then rejected else needs_review)
unfolding consolidate_from
consolidate_from-review [] = refl
consolidate_from-review (f ∷ fs) = ground (arith, consolidate_from-review fs)

-- The decision is rejected if some finding is blocking; otherwise it is needs_review if some finding
-- is a warning, and approved if none is.
pub consolidate-eq-decision_of : (fs : List Finding) → consolidate fs ≡ decision_of fs
unfolding consolidate
consolidate-eq-decision_of [] = refl
consolidate-eq-decision_of (f ∷ fs) =
    ground (arith, consolidate_from-review fs, consolidate-eq-decision_of fs)

-- The graver of two decisions, where a string that is no decision weighs least.
abbrev pub worse : Decision → Decision → Decision
worse rejected d = rejected
worse needs_review rejected = rejected
worse needs_review d = needs_review
worse approved needs_review = needs_review
worse approved rejected = rejected
worse approved d = approved
worse (Decision.other s) d = d

Decision-set : IsSet Decision
Decision-set = hlevel

abbrev grade : Finding → Decision
grade f = decision_of (f ∷ [])

consolidate-cons :
    (f : Finding) (fs : List Finding) → consolidate (f ∷ fs) ≡ worse (grade f) (consolidate fs)
consolidate-cons f fs =
    ground (arith, consolidate-eq-decision_of (f ∷ fs), consolidate-eq-decision_of fs)

worse_assoc : (a b c : Decision) → worse (worse a b) c ≡ worse a (worse b c)
worse_assoc a b c = ground arith

worse_swap : (a b c : Decision) → worse a (worse b c) ≡ worse b (worse a c)
worse_swap a b c = ground arith

-- Findings of several stages count independently: the decision on all of them is the graver of the
-- decisions on the parts.
pub consolidate-append :
    (fs gs : List Finding) → consolidate (fs ++ gs) ≡ worse (consolidate fs) (consolidate gs)
consolidate-append [] gs =
    ground (arith, consolidate-eq-decision_of [], consolidate-eq-decision_of gs)
consolidate-append (f ∷ fs) gs = simp (consolidate-cons, consolidate-append fs gs, worse_assoc)

consolidate-permᴰ : {fs gs : List Finding} → Permᴰ fs gs → consolidate fs ≡ consolidate gs
consolidate-permᴰ Permᴰ.nil = refl
consolidate-permᴰ (Permᴰ.cons {a = f} {b = g} {l₁ = fs} {l₂ = gs} e p) =
    simp consolidate-cons (cc (e, consolidate-permᴰ p))
consolidate-permᴰ (Permᴰ.swap {a = f} {b = g} {a' = f'} {b' = g'} {l = fs} e d) =
    simp consolidate-cons (rw (e, d) (worse_swap (grade g') (grade f') (consolidate fs)))
consolidate-permᴰ (Permᴰ.trans p q) = consolidate-permᴰ p ∙ consolidate-permᴰ q

-- The order in which the stages report their findings does not change the decision.
pub consolidate-perm : {fs gs : List Finding} → Perm fs gs → consolidate fs ≡ consolidate gs
consolidate-perm p = ∥∥₁_elim p (λ q r. Decision-set _ _ q r) consolidate-permᴰ
