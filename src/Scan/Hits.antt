-- ===== src/Scan/Hits.antt =====
-- Which findings the secret detector reports.
use mathlib.Core.List.{append_assoc, append-nil}
use mathlib.Core.Path.{subst}
use membrane_ai.Base.{
  ℕ, zero, suc, ◌+◌, ◌≡◌, ◌↔◌, ◌⊎◌, inl, inr, refl, sym, ap, ◌∙◌, true, some, List, [], ◌∷◌, ◌++◌,
  Str, arith, Any, All, All-append, Bool-cases, both_branches,
}
use membrane_ai.Base.Int.{pos}
use membrane_ai.Base.Context.{Context}
use membrane_ai.Errs.{GoError, nil, is_err, ok, err}
use membrane_ai.Scan.Lines.{split_lines, line_at}
use membrane_ai.Scan.{
  Finding, blocking, ScanLib, SecretPattern, secret_patterns, each_line, secret_hits, secret_detect,
}

-- The hits of all lines, from the number `i`.
abbrev hits_from : (ℕ → Str → List Finding) → ℕ → List Str → List Finding
hits_from hits i [] = []
hits_from hits i (line ∷ rest) = hits i line ++ hits_from hits (suc i) rest

module _ (err_at : ℕ → GoError) (hits : ℕ → Str → List Finding) where
  each_line-ok :
      (i : ℕ) (findings : List Finding) (lines : List Str) {out : List Finding}
      → each_line err_at hits i findings lines ≡ ok out
      → out ≡ findings ++ hits_from hits i lines
  unfolding each_line
  each_line-ok i findings [] h = cc (h, append-nil findings)
  each_line-ok i findings (line ∷ rest) h = elim (Bool-cases (is_err (err_at i))) [
    | inl stopped ↦ absurd (ground (arith, h, stopped))
    | inr on ↦
        each_line-ok (suc i) (findings ++ hits i line) rest (ground (arith, h, on))
        ∙ append_assoc findings (hits i line) (hits_from hits (suc i) rest)
  ]

  each_line-err :
      (i : ℕ) (findings : List Finding) (lines : List Str) {e : GoError}
      → each_line err_at hits i findings lines ≡ err e
      → is_err e ≡ true
  unfolding each_line
  each_line-err i findings [] h = absurd (cc h)
  each_line-err i findings (line ∷ rest) h = elim (Bool-cases (is_err (err_at i))) [
    | inl stopped ↦ ground (arith, h, stopped)
    | inr on ↦ each_line-err (suc i) (findings ++ hits i line) rest (ground (arith, h, on))
  ]

  pub each_line-total :
      (i : ℕ) (findings : List Finding) (lines : List Str)
      → ((k : ℕ) → err_at k ≡ nil)
      → each_line err_at hits i findings lines ≡ ok (findings ++ hits_from hits i lines)
  unfolding each_line
  each_line-total i findings [] h = ap ok (sym (append-nil findings))
  each_line-total i findings (line ∷ rest) h = rw (h i) (
      each_line-total (suc i) (findings ++ hits i line) rest h
      ∙ ap ok (append_assoc findings (hits i line) (hits_from hits (suc i) rest)))

module _ (P : Finding → Type 0) where
  Any-append : (xs ys : List Finding) → Any P (xs ++ ys) ↔ (Any P xs ⊎ Any P ys)
  Any-append [] ys = ((λ h. inr h), (λ h. elim h [ inl a ↦ elim a [ ] | inr b ↦ b ]))
  Any-append (x ∷ xs) ys =
      let (to, from) = Any-append xs ys in
      (
        (λ h. elim h [
          | inl p ↦ inl (inl p)
          | inr later ↦ elim (to later) [ inl a ↦ inl (inr a) | inr b ↦ inr b ]
        ]),
        (λ h. elim h [
          | inl a ↦ elim a [ inl p ↦ inl p | inr q ↦ inr (from (inl q)) ]
          | inr b ↦ inr (from (inr b))
        ]),
      )

  -- A hit of some line is a hit of the text.
  hits_from-Any :
      (hits : ℕ → Str → List Finding) (i k : ℕ) (lines : List Str) (line : Str)
      → line_at lines k ≡ some line
      → Any P (hits (i + k) line)
      → Any P (hits_from hits i lines)
  hits_from-Any hits i k [] line e h = absurd (cc e)
  hits_from-Any hits i zero (l ∷ lines) line e h =
      (Any-append (hits i l) (hits_from hits (suc i) lines)).1 (
        inl
          (subst (λ x. Any P (hits i x)) (cc e) (subst (λ n. Any P (hits n line)) (omega arith) h)))
  hits_from-Any hits i (suc k) (l ∷ lines) line e h =
      (Any-append (hits i l) (hits_from hits (suc i) lines)).1 (
        inr (
          hits_from-Any hits (suc i) k lines line e
            (subst (λ n. Any P (hits n line)) (omega arith) h)))

  Any-hits_from :
      (hits : ℕ → Str → List Finding) (i : ℕ) (lines : List Str)
      → Any P (hits_from hits i lines)
      → (k : ℕ) × (line : Str) × (line_at lines k ≡ some line) × Any P (hits (i + k) line)
  Any-hits_from hits i [] h = elim h [ ]
  Any-hits_from hits i (l ∷ lines) h =
      elim ((Any-append (hits i l) (hits_from hits (suc i) lines)).0 h) [
        | inl a ↦ (0, l, refl, subst (λ n. Any P (hits n l)) (omega arith) a)
        | inr b ↦
            let (k, line, e, c) = Any-hits_from hits (suc i) lines b in
            (suc k, line, e, subst (λ n. Any P (hits n line)) (omega arith) c)
      ]

-- A finding of the rule on the line, counted from 1.
abbrev pub Flags : Str → ℕ → Finding → Type 0
Flags rule n f = (f.rule ≡ rule) × (f.line ≡ pos n)

module _ (lib : ScanLib) where
  -- The pattern has the rule and matches the line.
  abbrev pub Catches : Str → Str → SecretPattern → Type 0
  Catches rule line p = (p.rule ≡ rule) × (lib.match_string p.re line ≡ true)

  secret_hits-Any :
      (rule : Str) (n i : ℕ) (line : Str) (ps : List SecretPattern)
      → Any (Flags rule (suc n)) (secret_hits lib ps i line)
        ↔ ((i ≡ n) × Any (Catches rule line) ps)
  unfolding secret_hits
  secret_hits-Any rule n i line [] = ground arith
  secret_hits-Any rule n i line (p ∷ ps) =
      let (to, from) = secret_hits-Any rule n i line ps in
      elim (Bool-cases (lib.match_string p.re line)) [
        | inl caught ↦ rw caught (
          (λ h. elim h [
            | inl (r, l) ↦ (cc l, inl (r, refl))
            | inr later ↦ let (e, c) = to later in (e, inr c)
          ]),
          (λ (e, h). elim h [
            | inl (r, m) ↦ inl (r, ap (λ j. pos (suc j)) e)
            | inr c ↦ inr (from (e, c))
          ]),
        )
        | inr clear ↦ rw clear (
          (λ h. let (e, c) = to h in (e, inr c)),
          (λ (e, h). elim h [ inl (r, m) ↦ absurd (cc m) | inr c ↦ from (e, c) ]),
        )
      ]

  -- A line of the text matches a secret pattern of the rule.
  abbrev pub Leaks : Str → Str → ℕ → Type 0
  Leaks content rule n =
      (line : Str) × (line_at (split_lines content) n ≡ some line)
      × Any (Catches rule line) secret_patterns

  -- What a scan for secrets that is not cancelled reports: a finding of a rule on a line, counted
  -- from 1, exactly if this line of the text matches a pattern of the rule.
  pub secret_detect_iff :
      (ctx : Context) (content language rule : Str) (n : ℕ) (found : List Finding)
      → secret_detect lib ctx content language ≡ ok found
      → Any (Flags rule (suc n)) found ↔ Leaks content rule n
  unfolding secret_detect
  secret_detect_iff ctx content language rule n found h =
      let hits = secret_hits lib secret_patterns in
      let all = each_line-ok (lib.ctx_err ctx) hits 0 [] (split_lines content) h in
      let P = Flags rule (suc n) in
      (
        (λ a.
            let (k, line, e, c) =
              Any-hits_from P hits 0 (split_lines content) (subst (Any P) all a) in
            let (same, caught) = (secret_hits-Any rule n (0 + k) line secret_patterns).0 c in
            (
              line,
              subst (λ j. line_at (split_lines content) j ≡ some line) (omega (arith, same)) e,
              caught,
            )),
        (λ (line, e, caught). subst (Any P) (sym all) (
            hits_from-Any P hits 0 n (split_lines content) line e
              ((secret_hits-Any rule n (0 + n) line secret_patterns).1 (omega arith, caught)))),
      )

  abbrev pub IsBlocking : Finding → Type 0
  IsBlocking f = f.severity ≡ blocking

  secret_hits-IsBlocking :
      (i : ℕ) (line : Str) (ps : List SecretPattern) → All IsBlocking (secret_hits lib ps i line)
  unfolding secret_hits
  secret_hits-IsBlocking i line [] = tt
  secret_hits-IsBlocking i line (p ∷ ps) =
      let later = secret_hits-IsBlocking i line ps in
      both_branches (All IsBlocking) (lib.match_string p.re line) (refl, later) later

  hits_from-IsBlocking :
      (i : ℕ) (lines : List Str)
      → All IsBlocking (hits_from (secret_hits lib secret_patterns) i lines)
  hits_from-IsBlocking i [] = tt
  hits_from-IsBlocking i (line ∷ lines) =
      All-append IsBlocking (secret_hits lib secret_patterns i line)
        (hits_from (secret_hits lib secret_patterns) (suc i) lines)
        (secret_hits-IsBlocking i line secret_patterns) (hits_from-IsBlocking (suc i) lines)

  pub secret_detect-IsBlocking :
      (ctx : Context) (content language : Str) (found : List Finding)
      → secret_detect lib ctx content language ≡ ok found
      → All IsBlocking found
  unfolding secret_detect
  secret_detect-IsBlocking ctx content language found h =
      subst (All IsBlocking)
        (sym (
          each_line-ok (lib.ctx_err ctx) (secret_hits lib secret_patterns) 0 []
            (split_lines content) h))
        (hits_from-IsBlocking 0 (split_lines content))

  pub secret_detect-err :
      (ctx : Context) (content language : Str) (e : GoError)
      → secret_detect lib ctx content language ≡ err e
      → is_err e ≡ true
  unfolding secret_detect
  secret_detect-err ctx content language e h =
      each_line-err (lib.ctx_err ctx) (secret_hits lib secret_patterns) 0 [] (split_lines content) h
