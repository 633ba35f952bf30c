-- ===== src/Lib.antt =====
-- Membrane AI: verification of the governance of code changes and of AI agents.
--
-- A submission (a diff of one file) is validated and queued by the ingestion, and reaches the
-- orchestrator, which answers it from its cache of verdicts or runs a chain of analysis stages
-- under a deadline, falls back to a deterministic stage when one of them fails, consolidates the
-- findings into a decision, stores a pipeline verdict without the identity of its submission, and
-- publishes the verdict stamped with that identity, through a transactional outbox that a relay
-- empties onto the bus. The reporter consumes the verdict from the bus, renders it and delivers
-- the report to every destination, with a log that makes redeliveries harmless. The gateway
-- decides on the tool calls, package installs and usage of AI agents, and puts each decision on
-- an audit trail. Package assurance takes the code verdict of a release and the outcome of an
-- agent evaluation, computes one gate decision, assembles an evidence record, checks it and
-- stores it once.
--
-- Files, by the code they model:
--   Base, Base/*: strings as lists of bytes, decimal numbers, integers, association lists,
--     contexts, Boolean tests.
--   Errs: pkg/errs/errs.go. A Go `error` is a value of GoError; `errors.As` and `errors.Join` are
--     on it.
--   Orchestrator/Verdict: services/orchestrator/internal/domain/verdict.go.
--   Orchestrator/Saga: services/orchestrator/internal/app/process.go and optional.go, over the
--     ports of services/orchestrator/internal/ports/ports.go. A port is a record of functions on the
--     state of the world, and `handle` is ProcessSubmission.Handle: its helpers `handle_hit`,
--     `handle_miss`, `remember`, `publish_or_fail`, `run_stages`, `conclude`, `verdict_of` are parts
--     of its body.
--   Orchestrator/Memory: services/orchestrator/internal/adapters/memorycache and memorypublisher.
--   Orchestrator/Outbox: services/orchestrator/internal/adapters/outboxstore/store.go. The tables
--     are a state, and each call is given what PostgreSQL answers; Step and Steps are the calls in
--     any order.
--   Reporter/Report: services/reporter/internal/domain/report.go.
--   Reporter/Dispatch: services/reporter/internal/app/dispatch.go and ports/ports.go beside it, and
--     services/reporter/internal/adapters/memorylog. `deliver` is one round of the loop of Handle.
--   Gateway/Policy and Gateway/Typosquat: services/gateway/internal/domain/policy.go.
--   Gateway/Audit: services/gateway/internal/app/gateway.go and ports/ports.go beside it.
--   Ingestion/Submission and Ingestion/Enqueue: services/ingestion/internal/domain/submission.go,
--     app/enqueue.go, ports/ports.go and adapters/memory/publisher.go. `enqueue` is its Handle.
--   Ingestion/Kafka: services/ingestion/internal/adapters/kafka/publisher.go (Publish).
--   Ingestion/Webhook: httpwebhook/handler.go beside it. Ingestion/Server: grpcserver/server.go
--     beside it.
--   Gateway/Routes: services/gateway/internal/adapters/httpapi/httpapi.go.
--   Analyzer/Analyze: services/analyzer/internal/domain/analysis.go, the ports in detectors.go
--     beside it, and services/analyzer/internal/app/analyze.go.
--   Analyzer/Detectors: services/analyzer/internal/domain/detectors.go, and the choice of detectors
--     in services/analyzer/cmd/analyzer/main.go.
--   Analyzer/Server: services/analyzer/internal/adapters/grpcserver/server.go.
--   Scan: pkg/scan/scan.go, the detectors that the analyzer, the fallback stage and the command
--     line share.
--   Envelope: pkg/envelope/envelope.go, the records on the bus.
--   Orchestrator/Stages: services/orchestrator/internal/adapters/stages/secretscan.go and
--     grpcstage/stage.go.
--   Orchestrator/Semantic: semanticstage/stage.go and resolverfetcher.go beside them.
--   Orchestrator/Codec: codec/codec.go beside them, and handleRecord of kafkabus/consumer.go.
--   Orchestrator/RedisCache: rediscache/cache.go beside them.
--   Reporter/Consumer: handleRecord of services/reporter/internal/adapters/kafkabus/consumer.go.
--   Reporter/Notify: services/reporter/internal/adapters/notify; the steps that its three Notify
--     share are `post`.
--   Reporter/RedisLog: services/reporter/internal/adapters/redislog/redislog.go.
--   Resolver: services/resolver/internal/domain/query.go, app/resolve.go and ports/ports.go.
--   Cli/Runner, Cli/Excerpt and Cli/Findings: clients/cli/internal/runner/runner.go.
--   Cli/Report and Cli/Tables: clients/cli/internal/report/report.go.
--   Sort has the sorts of the whole program.
--   Cli/Command: clients/cli/cmd/membrane/main.go, from the checks of the flags to the exit code.
--   Assurance/Allowlist: pkg/assurance/allowlist.go. Assurance/Tenancy: MappingRecordV1 of
--     contract.go beside it.
--   Assurance/Client: httpclient.go and client.go beside it; Http is what they and the semantic
--     stage read of a response.
--   Assurance/Scm: scm.go, scmgithub.go and render.go beside it.
--   Assurance/Release: pkg/cmd/release-evidence/main.go; Release/Command is its `run`.
--   Assurance/Api: pkg/cmd/evidence-api/main.go.
--   Assurance/Status: pkg/assurance/status.go (MapEvalStatus, Decide and the checks of the enums).
--   Assurance/Gate and Assurance/Build: pkg/assurance/builder.go (combinedGate,
--     BuildReleaseEvidence).
--   Assurance/Contract: pkg/assurance/contract.go (CorrelationContext, ReleaseEvidenceV1, their
--     checks).
--   Assurance/Store: pkg/assurance/store.go (MemStore and FileStore); Store/Listing is their List.
-- The files below one of these hold the theorems on it, and those named Tests its concrete
-- examples.
--
-- Conventions. A Go string is the list of its bytes, and a `type X string` with constants is a
-- data type with a constructor for any other string. A Go int and a time are unbounded integers:
-- the code only copies them and compares them with zero. A map is an association list. A pointer
-- to a use case is its record, since no operation changes it. The loops are structural on a slice
-- or a string, but for two that run on fuel: `strip`, for strings.TrimSpace, where `strip-none`
-- shows that the length of the text is enough, and `digits`, for a decimal number, where
-- `number-decimal` shows it. A context is the way in which it was derived; what a deadline does
-- to a stage is part of that stage, which may fail. The error that a context answers to a
-- detector is the same in every run under it, so a cancellation between two runs is not modelled.
-- A range over a Go map, whose order Go leaves open, goes in the order of the source or of the
-- association list.
--
-- Parameters: the digest of blake3, the ports of each use case (stages, cache, publisher, clock,
-- notifiers, delivery log, audit sink, embedder, index), the HTTP and gRPC clients and the bus,
-- encoding/json, regexp, net/url, filepath, path.Dir and the runes of a string, uuid, the faults
-- of the file system and of PostgreSQL, and strings.ToLower and strings.EqualFold, which go by
-- Unicode tables. What a theorem needs of them is among its hypotheses: that a digest has no
-- collision on two inputs, that a stage leaves the cache and the published verdicts alone, that a
-- rendered record decodes to itself, that the bus keeps what it has accepted, that a client of
-- the analyzer hands over what the analyzer has answered.
--
-- A Markdown or a JSON text that goes to a service is a value of the model; JSON itself is a
-- parameter. The debt score, a quotient of floating-point numbers, is compared with the
-- thresholds by cross-multiplication, which gives the same answers while 100 times the weight
-- stays below 2 ^ 53. Where package sort leaves the order of equal elements open, the model keeps
-- theirs. The commit status of package assurance is published by one caller at a time. A tree of
-- files does not change while it is scanned. The files of the release command lie outside the
-- store's directory.
--
-- Not modelled: the relay's ticker, the SQL adapter and the gRPC handler of the resolver, the
-- audit sink that logs, the rendering of a report in Markdown and HTML, health endpoints, flags,
-- configuration, logs and traces, the generated protobuf code, the embedding stub and the
-- evaluation harness, which compute in floating point, and the Python and TypeScript parts.
pub mod Base
pub mod Errs
pub mod Http
pub mod Sort
pub mod Envelope
pub mod Scan
pub mod Orchestrator
pub mod Assurance
pub mod Gateway
pub mod Reporter
pub mod Ingestion
pub mod Analyzer
pub mod Resolver
pub mod Cli
