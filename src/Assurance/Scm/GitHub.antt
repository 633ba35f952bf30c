-- ===== src/Assurance/Scm/GitHub.antt =====
-- pkg/assurance/scmgithub.go. The HTTP client and package json are a parameter.
use membrane_ai.Base.{
  ℕ, ◌≤◌, ◌≡◌, refl, ◌||◌, List, [], ◌∷◌, ◌++◌, Str, bytes, is_blank, length, take, leb, eqb,
  if◌then◌else◌, arith, length-append, length-take, Bool-cases, inl, inr,
}
use membrane_ai.Base.Decimal.{decimal}
use membrane_ai.Errs.{
  GoError, nil, is_err, validation_err, not_found_err, unauthorized_err, unavailable_err,
  internal_err, Result, ok, err,
}
use membrane_ai.Assurance.Client.{trim_right_slash}
use membrane_ai.Assurance.Client.Escape.{url_path_escape}
use membrane_ai.Assurance.Scm.{ScmStatus, cut_slash, validate_status_coordinates}

pub record GitHub : Type 0 where
  pub base_url : Str
  pub token : Str

-- `NewGitHubStatusPublisher`
unfoldable pub new_github : Str → Str → Result GitHub
new_github base_url token =
    if is_blank token
    then err (
        validation_err (bytes "assurance.NewGitHubStatusPublisher")
          (bytes "a GitHub token is required") nil)
    else ok (record {
      base_url =
          trim_right_slash (if is_blank base_url then bytes "https://api.github.com" else base_url);
      token = token;
    })

pub record StatusPayload : Type 0 where
  pub state : Str
  pub description : Str
  pub context : Str

pub record PostRequest : Type 0 where
  pub url : Str
  pub headers : List (Str × Str)
  pub payload : Str

-- `json.Marshal`, `http.NewRequestWithContext` (the error for a URL), and `client.Do` with the status
-- code of its response.
pub record PostLib (W : Type 0) : Type 0 where
  pub marshal : StatusPayload → Result Str
  pub new_request : Str → GoError
  pub send : PostRequest → W → W × Result ℕ

-- `truncate140`, on bytes: U+2026 takes three.
unfoldable pub truncate140 : Str → Str
truncate140 s = if leb (length s) 140 then s else take 139 s ++ bytes "…"

abbrev op_publish : Str
op_publish = bytes "assurance.GitHubStatusPublisher.Publish"

abbrev pub status_url : GitHub → ScmStatus → Str
status_url g s =
    g.base_url
    ++ bytes "/repos/"
    ++ (cut_slash s.repository).0
    ++ bytes "/"
    ++ (cut_slash s.repository).1
    ++ bytes "/statuses/"
    ++ url_path_escape s.commit_sha

abbrev pub github_headers : GitHub → List (Str × Str)
github_headers g =
    (bytes "Authorization", bytes "Bearer " ++ g.token)
    ∷ (bytes "Accept", bytes "application/vnd.github+json")
    ∷ (bytes "Content-Type", bytes "application/json")
    ∷ []

-- The part of `Publish` that follows the call.
unfoldable pub post_error : Result ℕ → GoError
post_error (err e) = unavailable_err op_publish (bytes "post status") e
post_error (ok code) =
    if eqb code 201
    then nil
    else if eqb code 401 || eqb code 403
    then unauthorized_err op_publish
        (bytes "github rejected the token (" ++ decimal code ++ bytes ")") nil
    else if eqb code 404
    then not_found_err op_publish (bytes "repository or commit not found") nil
    else unavailable_err op_publish (bytes "github returned " ++ decimal code) nil

module _ {W : Type 0} (lib : PostLib W) (g : GitHub) where
  -- The part of `Publish` that follows the rendering of the payload.
  unfoldable pub post_status : ScmStatus → W → Result Str → W × GoError
  unfolding post_error
  post_status s w (err e) = (w, internal_err op_publish (bytes "marshal status") e)
  post_status s w (ok payload) =
      let refused = lib.new_request (status_url g s) in
      let request : PostRequest = record {
        url = status_url g s;
        headers = github_headers g;
        payload = payload;
      } in
      if is_err refused
      then (w, internal_err op_publish (bytes "build request") refused)
      else let (w', answer) = lib.send request w in (w', post_error answer)

  -- `GitHubStatusPublisher.Publish`
  unfoldable pub github_publish : W → ScmStatus → W × GoError
  unfolding post_status truncate140
  github_publish w s =
      let invalid = validate_status_coordinates s in
      let payload : StatusPayload = record {
        state = s.state;
        description = truncate140 s.title;
        context = s.context;
      } in
      if is_err invalid then (w, invalid) else post_status s w (lib.marshal payload)

ellipsis_length : length (bytes "…") ≡ 3
unfolding bytes
ellipsis_length = refl

-- The description that is posted is the title, if it has at most 140 bytes, and else has at most 142:
-- two more than the name of `truncate140` says.
pub truncate140_bounds :
    (s : Str) → (length s ≤ 140 → truncate140 s ≡ s) × (length (truncate140 s) ≤ 142)
unfolding truncate140
truncate140_bounds s = elim (Bool-cases (leb (length s) 140)) [
  | inl short ↦ rw short ((λ h. refl), ground (arith, short))
  | inr long ↦ rw long (
    (λ h. absurd (ground (arith, h, long))),
    omega (arith, length-append (take 139 s) (bytes "…"), length-take 139 s, ellipsis_length),
  )
]
