-- ===== src/Reporter/Notify.antt =====
-- services/reporter/internal/adapters/notify: the destinations of a report. Package json and the HTTP
-- client are a parameter, on the state `E` of the world.
pub mod Posts
use membrane_ai.Base.{
  ℕ, Bool, true, false, ◌&&◌, ◌||◌, not, List, [], ◌∷◌, ◌++◌, Str, bytes, ◌==◌, length, take, eqb,
  leb, if◌then◌else◌,
}
use membrane_ai.Base.Int.{ℤ, pos, negsuc, is_pos}
use membrane_ai.Base.Context.{Context}
use membrane_ai.Base.Decimal.{decimal}
use membrane_ai.Errs.{
  GoError, nil, is_err, validation_err, internal_err, unavailable_err, Result, ok, err,
}
use membrane_ai.Assurance.Client.{trim_right_slash}
use membrane_ai.Assurance.Client.Wire.{itoa}
use membrane_ai.Assurance.Scm.{cut_slash}
use membrane_ai.Reporter.Report.{Outcome, success, failure, neutral, Report}
use membrane_ai.Reporter.Dispatch.{Notifier}

abbrev pub status_context : Str
status_context = bytes "membrane-ai/governance"

-- `statusPayload`, `prCommentPayload` and `webhookPayload`
pub data Payload : Type 0 where
  status : (state description context : Str) → Payload
  comment : (body : Str) → Payload
  webhook : (text submission_id organization_id outcome body : Str) → Payload

pub record PostRequest : Type 0 where
  pub url : Str
  pub headers : List (Str × Str)
  pub payload : Str

-- `json.Marshal`, `http.NewRequestWithContext` (the error for a URL), and `client.Do` with the status
-- code of its response.
pub record HttpLib (E : Type 0) : Type 0 where
  pub marshal : Payload → Result Str
  pub new_request : Str → GoError
  pub send : Context → PostRequest → E → Result ℕ × E

-- `GitHubStatus` and `GitHubPRComment` after their constructors.
pub record GitHub : Type 0 where
  pub base_url : Str
  pub token : Str

-- `NewGitHubStatus` and `NewGitHubPRComment`
unfoldable pub new_github : Str → Str → GitHub
new_github base_url token = record {
  base_url = trim_right_slash (if base_url == [] then bytes "https://api.github.com" else base_url);
  token = token;
}

-- `stateFor`
unfoldable pub state_for : Outcome → Str
state_for success = bytes "success"
state_for failure = bytes "failure"
state_for neutral = bytes "pending"

-- `string(r.Outcome)`
unfoldable pub outcome_string : Outcome → Str
outcome_string success = bytes "success"
outcome_string failure = bytes "failure"
outcome_string neutral = bytes "neutral"

-- `truncate` at 140
unfoldable pub truncate : Str → Str
truncate s = if leb (length s) 140 then s else take 139 s ++ bytes "…"

-- `renderComment`
unfoldable pub render_comment : Report → Str
render_comment r =
    bytes "**"
    ++ r.title
    ++ bytes "**\n\n```\n"
    ++ r.body
    ++ bytes "\n```\n_submission `"
    ++ r.submission_id
    ++ bytes "` · MEMBRANE.AI governance_\n"

abbrev pub github_headers : GitHub → List (Str × Str)
github_headers g =
    (bytes "Authorization", bytes "Bearer " ++ g.token)
    ∷ (bytes "Accept", bytes "application/vnd.github+json")
    ∷ (bytes "Content-Type", bytes "application/json")
    ∷ []

-- `!ok || owner == "" || repo == ""` of `strings.Cut(repository, "/")`
abbrev pub bad_repository : Str → Bool
bad_repository repository =
    let (owner, repo, found) = cut_slash repository in not found || owner == [] || repo == []

abbrev pub repos_url : GitHub → Str → Str
repos_url g repository =
    let (owner, repo, found) = cut_slash repository in
    g.base_url ++ bytes "/repos/" ++ owner ++ bytes "/" ++ repo

-- The texts of a notifier's errors, and the status codes that it accepts.
pub record Wording : Type 0 where
  pub op : Str
  pub marshal_text : Str
  pub post_text : Str
  pub returned_text : Str
  pub accepts : ℕ → Bool

module _ {E : Type 0} (lib : HttpLib E) where
  -- What each `Notify` does with the answer of the call.
  unfoldable pub answer_error : Wording → Result ℕ → GoError
  answer_error w (err e) = unavailable_err w.op w.post_text e
  answer_error w (ok code) =
      if w.accepts code then nil else unavailable_err w.op (w.returned_text ++ decimal code) nil

  -- The part of each `Notify` from the rendering of its payload on.
  unfoldable pub post : Wording → Context → Str → List (Str × Str) → E → Result Str → GoError × E
  unfolding answer_error
  post w ctx url headers e (err failed) = (internal_err w.op w.marshal_text failed, e)
  post w ctx url headers e (ok payload) =
      let refused = lib.new_request url in
      let request : PostRequest = record { url = url; headers = headers; payload = payload } in
      let (answer, e') = lib.send ctx request e in
      if is_err refused
      then (internal_err w.op (bytes "build request") refused, e)
      else (answer_error w answer, e')

  abbrev pub status_wording : Wording
  status_wording = record {
    op = bytes "reporter.adapters.notify.GitHubStatus";
    marshal_text = bytes "marshal status";
    post_text = bytes "post status";
    returned_text = bytes "github returned ";
    accepts = λ code. eqb code 201;
  }

  -- `GitHubStatus.Notify`
  unfoldable pub notify_status : GitHub → Context → Report → E → GoError × E
  unfolding post truncate state_for
  notify_status g ctx r e =
      if r.repository == [] || r.commit_sha == []
      then (nil, e)
      else if bad_repository r.repository
      then (
        validation_err (bytes "reporter.adapters.notify.GitHubStatus")
            (bytes "repository must be owner/repo, got " ++ r.repository) nil,
        e,
      )
      else post status_wording ctx (repos_url g r.repository ++ bytes "/statuses/" ++ r.commit_sha)
          (github_headers g) e
          (lib.marshal (status (state_for r.outcome) (truncate r.title) status_context))

  abbrev comment_wording : Wording
  comment_wording = record {
    op = bytes "reporter.adapters.notify.GitHubPRComment";
    marshal_text = bytes "marshal comment";
    post_text = bytes "post comment";
    returned_text = bytes "github returned ";
    accepts = λ code. eqb code 201;
  }

  -- `GitHubPRComment.Notify`
  unfoldable pub notify_comment : GitHub → Context → Report → E → GoError × E
  unfolding post render_comment itoa
  notify_comment g ctx r e =
      if r.repository == [] || not (is_pos r.pr_number)
      then (nil, e)
      else if bad_repository r.repository
      then (
        validation_err (bytes "reporter.adapters.notify.GitHubPRComment")
            (bytes "repository must be owner/repo, got " ++ r.repository) nil,
        e,
      )
      else post comment_wording ctx
          (repos_url g r.repository ++ bytes "/issues/" ++ itoa r.pr_number ++ bytes "/comments")
          (github_headers g) e (lib.marshal (comment (render_comment r)))

  abbrev webhook_wording : Wording
  webhook_wording = record {
    op = bytes "reporter.adapters.notify.Webhook";
    marshal_text = bytes "marshal payload";
    post_text = bytes "post webhook";
    returned_text = bytes "webhook returned ";
    accepts = λ code. leb 200 code && leb code 299;
  }

  -- `Webhook.Notify`, with the URL of `NewWebhook`
  unfoldable pub notify_webhook : Str → Context → Report → E → GoError × E
  unfolding post outcome_string
  notify_webhook url ctx r e =
      post webhook_wording ctx url ((bytes "Content-Type", bytes "application/json") ∷ []) e (
        lib.marshal
          (webhook r.title r.submission_id r.organization_id (outcome_string r.outcome) r.body))

  -- The three as notifiers.
  abbrev pub github_status : GitHub → Notifier E
  github_status g = record { name = bytes "github-status"; notify = notify_status g }

  abbrev pub github_comment : GitHub → Notifier E
  github_comment g = record { name = bytes "github-pr-comment"; notify = notify_comment g }

  abbrev pub webhook_notifier : Str → Notifier E
  webhook_notifier url = record { name = bytes "webhook"; notify = notify_webhook url }
