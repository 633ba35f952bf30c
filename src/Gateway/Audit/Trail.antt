-- ===== src/Gateway/Audit/Trail.antt =====
-- The audit trail over any sequence of requests.
use mathlib.Core.List.{append_assoc, append-nil}
use membrane_ai.Base.{
  ◌≡◌, sym, ◌∙◌, ap, Bool-cases, inl, inr, true, false, List, [], ◌∷◌, ◌++◌, Str, bytes,
}
use membrane_ai.Base.Context.{Context}
use membrane_ai.Errs.{is_err, Result, ok, err}
use membrane_ai.Gateway.Policy.{Verdict, ToolCall, Package, ShadowSignal, Casing}
use membrane_ai.Gateway.Audit.{Gateway, audited, govern_tool_call, govern_package, record_shadow}

-- A request to the gateway.
pub data Request : Type 0 where
  tool_call : ToolCall → Request
  install : Package → Request
  shadow : ShadowSignal → Request

pub record Entry : Type 0 where
  pub kind : Str
  pub subject : Str
  pub verdict : Verdict

abbrev pub kind_of_request : Request → Str
kind_of_request (tool_call c) = bytes "tool-call"
kind_of_request (install p) = bytes "package"
kind_of_request (shadow s) = bytes "shadow-ai"

abbrev pub subject_of : Request → Str
subject_of (tool_call c) = c.tool
subject_of (install p) = p.ecosystem ++ bytes ":" ++ p.name
subject_of (shadow s) = s.agent

-- A sink that reports no error has added the entry, and one that reports an error has added none.
pub record IsTrail {E : Type 0} (g : Gateway E) (trail : E → List Entry) : Type 0 where
  pub adds :
      (ctx : Context) (kind subject : Str) (v : Verdict) (e : E)
      → is_err (g.audit.record_verdict ctx kind subject v e).0 ≡ false
      → trail (g.audit.record_verdict ctx kind subject v e).1
        ≡ trail e ++ record { kind = kind; subject = subject; verdict = v } ∷ []
  pub fails :
      (ctx : Context) (kind subject : Str) (v : Verdict) (e : E)
      → is_err (g.audit.record_verdict ctx kind subject v e).0 ≡ true
      → trail (g.audit.record_verdict ctx kind subject v e).1 ≡ trail e

-- The entries of the requests that were answered with a verdict.
abbrev pub entry_of : Request → Result Verdict → List Entry
entry_of r (ok v) = record { kind = kind_of_request r; subject = subject_of r; verdict = v } ∷ []
entry_of r (err e) = []

abbrev pub entries : List (Request × Result Verdict) → List Entry
entries [] = []
entries ((r, answer) ∷ rest) = entry_of r answer ++ entries rest

module _ {E : Type 0} (casing : Casing) (g : Gateway E) (ctx : Context) where
  unfoldable pub serve : Request → E → Result Verdict × E
  serve (tool_call c) = govern_tool_call casing g ctx c
  serve (install p) = govern_package casing g ctx p
  serve (shadow s) = record_shadow casing g ctx s

  -- The requests with their answers, and the state after the last one.
  unfoldable pub serve_all : List Request → E → List (Request × Result Verdict) × E
  unfolding serve
  serve_all [] e = ([], e)
  serve_all (r ∷ rs) e =
      let (answer, e') = serve r e in
      let (answers, e'') = serve_all rs e' in ((r, answer) ∷ answers, e'')

  module _ {trail : E → List Entry} (t : IsTrail g trail) where
    audited-trail :
        (r : Request) (v : Verdict) (e : E)
        → trail (audited casing g ctx (kind_of_request r) (subject_of r) v e).1
          ≡ trail e ++ entry_of r (audited casing g ctx (kind_of_request r) (subject_of r) v e).0
    unfolding audited
    audited-trail r v e =
        elim (Bool-cases
          (is_err (g.audit.record_verdict ctx (kind_of_request r) (subject_of r) v e).0)) [
            | inl failed ↦ rw failed (t.fails _ _ _ v e failed ∙ sym (append-nil (trail e)))
            | inr done ↦ rw done (t.adds _ _ _ v e done)
          ]

    serve-trail : (r : Request) (e : E) → trail (serve r e).1 ≡ trail e ++ entry_of r (serve r e).0
    unfolding serve govern_tool_call govern_package record_shadow
    serve-trail (tool_call c) e = audited-trail (tool_call c) _ e
    serve-trail (install p) e = audited-trail (install p) _ e
    serve-trail (shadow s) e = audited-trail (shadow s) _ e

    -- The trail is the inventory of the decisions: over any sequence of requests it grows by
    -- exactly the verdicts that were returned, those that allow included, in order, each under
    -- its kind and subject. A verdict that could not be recorded is not returned.
    pub serve_all-trail :
        (rs : List Request) (e : E)
        → trail (serve_all rs e).1 ≡ trail e ++ entries (serve_all rs e).0
    unfolding serve_all
    serve_all-trail [] e = sym (append-nil (trail e))
    serve_all-trail (r ∷ rs) e =
        serve_all-trail rs (serve r e).1
        ∙ ap (λ l. l ++ entries (serve_all rs (serve r e).1).0) (serve-trail r e)
        ∙ append_assoc (trail e) (entry_of r (serve r e).0) (entries (serve_all rs (serve r e).1).0)
