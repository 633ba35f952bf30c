-- ===== src/Assurance/Api.antt =====
-- pkg/cmd/evidence-api/main.go: the routes over an evidence store. Flags, environment and logs are
-- left out.
pub mod Listed
use membrane_ai.Base.{ℕ, Bool, ◌||◌, not, List, [], ◌∷◌, Str, bytes, ◌==◌, if◌then◌else◌}
use membrane_ai.Errs.{Kind, GoError, kind_of, Result, ok, err}
use membrane_ai.Assurance.Contract.{ReleaseEvidence}

-- What `server` reads of its `EvidenceStore`, and its key.
pub record Server : Type 0 where
  pub list : Result (List ReleaseEvidence)
  pub get : Str → Result ReleaseEvidence
  pub api_key : Str

-- What a handler writes: an error with its status, or records with the status 200. A record is
-- written as `RenderJSON` gives it.
pub data Answer : Type 0 where
  failure : (status : ℕ) → (message : Str) → Answer
  releases : List ReleaseEvidence → Answer
  record_json : Str → Answer

abbrev fail_for : Kind → Answer
fail_for Kind.not_found = failure 404 (bytes "not found")
fail_for Kind.validation = failure 400 (bytes "bad request")
fail_for _ = failure 500 (bytes "internal error")

-- `server.fail`
unfoldable pub fail : GoError → Answer
fail e = fail_for (kind_of e)

-- The loop of `server.list` over the records.
unfoldable pub in_project : Str → List ReleaseEvidence → List ReleaseEvidence
in_project project [] = []
in_project project (ev ∷ rest) =
    let more = in_project project rest in
    if project == [] || ev.project_id == project then ev ∷ more else more

abbrev pub listed : Str → Result (List ReleaseEvidence) → Answer
listed project (err e) = fail e
listed project (ok all) = releases (in_project project all)

-- `server.list`
unfoldable pub list_releases : Server → Str → Answer
unfolding fail in_project
list_releases s project = listed project s.list

abbrev rendered : Result Str → Answer
rendered (err e) = fail e
rendered (ok b) = record_json b

abbrev got : (ReleaseEvidence → Result Str) → Result ReleaseEvidence → Answer
got render (err e) = fail e
got render (ok ev) = rendered (render ev)

-- `server.get`, with `RenderJSON`
unfoldable pub get_release : (ReleaseEvidence → Result Str) → Server → Str → Answer
unfolding fail
get_release render s id = got render (s.get id)

-- `server.auth`, on the key that the request carries.
unfoldable pub auth : Server → Str → Answer → Answer
auth s key next = if not (key == s.api_key) then failure 401 (bytes "unauthorized") else next

-- The requests that `run` routes.
pub data Request : Type 0 where
  healthz : Request
  list : (project : Str) → Request
  get : (id : Str) → Request

-- The mux of `run`; the answer to `healthz` is its text.
unfoldable pub serve : (ReleaseEvidence → Result Str) → Server → (key : Str) → Request → Answer
unfolding list_releases get_release auth
serve render s key healthz = record_json (bytes "ok")
serve render s key (list project) = auth s key (list_releases s project)
serve render s key (get id) = auth s key (get_release render s id)
