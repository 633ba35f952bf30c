-- ===== src/Ingestion/Server.antt =====
-- services/ingestion/internal/adapters/grpcserver/server.go: the gRPC handlers. A message of the
-- generated code is a record, and a stream is what its `Recv` and its `Send` answer, call by call.
pub mod Acked
use membrane_ai.Base.{
  ℕ, ◌==◌, Option, none, some, List, [], ◌∷◌, Str, bytes, is_blank, if◌then◌else◌,
}
use membrane_ai.Base.Int.{ℤ}
use membrane_ai.Base.Context.{Context}
use membrane_ai.Errs.{
  Kind, GoError, nil, is_err, kind_of, error_string, validation_err, Result, ok, err,
}
use membrane_ai.Ingestion.Submission.{Submission, Origin, new_submission, attach_source}
use membrane_ai.Ingestion.Enqueue.{EnqueueResult, EnqueueSubmission, enqueue}

pub data ProtoOrigin : Type 0 where
  unspecified ide webhook : ProtoOrigin
  other : ℤ → ProtoOrigin

-- `ingestionv1.CodeSubmission`
pub record CodeSubmission : Type 0 where
  pub organization_id : Str
  pub repository : Str
  pub file_path : Str
  pub language : Str
  pub diff : Str
  pub origin : ProtoOrigin
  pub commit_sha : Str
  pub pr_number : ℤ

pub data Code : Type 0 where
  invalid_argument not_found already_exists unauthenticated unavailable internal : Code

-- What a handler returns as its error: a status, or the error of the stream as it is.
pub data Failure : Type 0 where
  status : Code → Str → Failure
  transport : GoError → Failure

-- `grpcCode`
unfoldable pub grpc_code : Kind → Code
grpc_code Kind.validation = Code.invalid_argument
grpc_code Kind.not_found = Code.not_found
grpc_code Kind.conflict = Code.already_exists
grpc_code Kind.unauthorized = Code.unauthenticated
grpc_code Kind.unavailable = Code.unavailable
grpc_code _ = Code.internal

-- `statusFromErr`
unfoldable pub status_from_err : GoError → Failure
unfolding grpc_code
status_from_err e = status (grpc_code (kind_of e)) (error_string e)

-- `originFromProto`
unfoldable pub origin_from_proto : ProtoOrigin → Origin
origin_from_proto ProtoOrigin.ide = Origin.ide
origin_from_proto ProtoOrigin.webhook = Origin.webhook
origin_from_proto _ = Origin.unspecified

abbrev with_source : CodeSubmission → Result Submission → Result Submission
with_source cs (err e) = err e
with_source cs (ok sub) = ok (attach_source sub cs.commit_sha cs.pr_number)

-- `toDomain`; a message that is missing is none.
unfoldable pub to_domain : Option CodeSubmission → Result Submission
unfolding origin_from_proto
to_domain none = err (validation_err (bytes "ingestion.grpc") (bytes "submission is required") nil)
to_domain (some cs) = with_source cs (
    new_submission cs.organization_id cs.repository cs.file_path cs.language cs.diff
      (origin_from_proto cs.origin))

-- One `Recv` that gives a message, with what `Send` answers to its acknowledgement if it comes to
-- that; or one that fails. A list that ends is `io.EOF`.
pub data Recv : Type 0 where
  message : (submission : Option CodeSubmission) → (send_error : GoError) → Recv
  broken : GoError → Recv

module _ {E : Type 0} (uc : EnqueueSubmission E) (ctx : Context) where
  abbrev pub answered : Result EnqueueResult × E → Option Failure × Option EnqueueResult × E
  answered (err e, w) = (some (status_from_err e), none, w)
  answered (ok res, w) = (none, some res, w)

  -- What both handlers do with a submission: the error, or the result.
  abbrev pub submit : E → Result Submission → Option Failure × Option EnqueueResult × E
  submit w (err e) = (some (status_from_err e), none, w)
  submit w (ok sub) = answered (enqueue uc ctx sub w)

  -- `Server.SubmitDiff`
  unfoldable pub submit_diff : Option CodeSubmission → E → Option Failure × Option EnqueueResult × E
  unfolding to_domain status_from_err
  submit_diff cs w = submit w (to_domain cs)

  -- `Send`, and the rest of the loop after it. `acks` are those that were sent.
  abbrev pub after_submit :
      GoError
      → (EnqueueResult → E → List EnqueueResult × Option Failure × E)
      → Option Failure × Option EnqueueResult × E
      → List EnqueueResult × Option Failure × E
  after_submit send_error next (some failed, res, w) = ([], some failed, w)
  after_submit send_error next (none, none, w) = ([], none, w)
  after_submit send_error next (none, some res, w) =
      let later = next res w in
      if is_err send_error then ([], some (transport send_error), w) else later

  abbrev pub onto :
      EnqueueResult
      → List EnqueueResult × Option Failure × E
      → List EnqueueResult × Option Failure × E
  onto res (acks, failed, w) = (res ∷ acks, failed, w)

  -- `Server.StreamCodeDiff`: the acknowledgements that were sent, the error, and the world.
  unfoldable pub stream_code_diff : List Recv → E → List EnqueueResult × Option Failure × E
  unfolding to_domain status_from_err
  stream_code_diff [] w = ([], none, w)
  stream_code_diff (broken e ∷ rest) w = ([], some (transport e), w)
  stream_code_diff (message cs send_error ∷ rest) w =
      after_submit send_error (λ res w'. onto res (stream_code_diff rest w'))
        (submit w (to_domain cs))
