-- ===== src/Lib.antt =====
-- The core of experience-hub, modelled and proved: how an experience's state changes, which events
-- may change it, how the lifecycle decides, and how commands and events are stored once.
--
-- How the parts interact. A command reaches CommandExecutor.execute, which reserves a receipt, runs
-- the handler in a savepoint and completes the receipt (Storage.Idempotency). A handler changes an
-- experience by building event payloads, whose validators check them (Experiences.Events), and by
-- handing them to the mutation writer, which checks the whole sequence against the locked row
-- (Experiences.Writer) and appends it to the event store (Storage.EventStore), from which the
-- projector keeps the table of states, one event at a time or over the whole ledger
-- (Experiences.Projector). The lifecycle run (Lifecycle.Run) holds a lease (Lifecycle.Lease),
-- evaluates every experience (Lifecycle.Evaluate) on its activation (Scoring), plans the events
-- (Lifecycle.Plan) and has the writer apply them. Confidence that comes with a shared capsule is
-- weighed by trust (Sharing.Confidence), which stands on the feedback that a publisher's capsules got
-- (Sharing.Reputation). Retrieval takes a quota of candidates of each temperature and scores them,
-- with their activation (Retrieval). What a run of inspiration works on is frozen from ranked
-- evidence (Inspiration.Snapshot), and the ideas that its operators return are deduplicated
-- (Inspiration.Dedup).
--
-- Which file models what (paths from the repository's root):
--   Floats                  Python's floats and the math functions, as a parameter
--   Scoring                 src/experience_hub/lifecycle/scoring.py: LifecycleConfig, activation_at,
--                           decay_strength, record_access; a ValueError is `none` or `false`
--   Experiences.State       ExperienceStateSnapshotV1 and the comparison of its fields
--   Experiences.Events      src/experience_hub/experiences/events.py: the payload classes, with the
--                           validators in Events.Valid and the order of the evidence in
--                           Events.Evidence; PendingEvent is in Events.Pending
--   Experiences.Writer      src/experience_hub/experiences/transitions.py: apply_ordered_events
--                           (Writer.Apply) and _require_exact_lifecycle_sequence (Writer.Sequence)
--   Experiences.Projector   src/experience_hub/experiences/projector.py: ExperienceProjector, its
--                           table (Rows), what it reads (Sources), the checks of the events
--                           (Context, Checks, Transition, Source, Provenance, Policy), and apply
--                           and rebuild (Apply)
--   Lifecycle.Evaluate      src/experience_hub/lifecycle/service.py: evaluate_transition
--   Lifecycle.Plan          src/experience_hub/lifecycle/service.py: _plan_mutation
--   Lifecycle.Run           src/experience_hub/lifecycle/service.py: LifecycleService.run and
--                           _ordered_idea_events (Run.Ideas); find_completed_resource (Run.Receipts)
--   Lifecycle.Lease         src/experience_hub/lifecycle/repository.py: the three lease operations
--   Storage.EventStore      src/experience_hub/storage/event_store.py: append
--   Storage.Idempotency     src/experience_hub/storage/idempotency.py: ReceiptStore, and in
--                           Idempotency.Executor CommandExecutor
--   Sharing.Confidence      src/experience_hub/sharing/confidence.py
--   Sharing.Reputation      src/experience_hub/sharing/projector.py: reduce_reputation and
--                           replay_reputation; what record_capsule_feedback of service.py records
--   Inspiration.Snapshot    src/experience_hub/inspiration/snapshot.py: freeze from the candidates on;
--                           the size of the canonical JSON of canonical.py is in Snapshot.Size
--   Inspiration.Dedup       src/experience_hub/inspiration/dedup.py; mechanism_similarity of hashing.py
--                           is in Dedup.Similarity
--   Retrieval               src/experience_hub/retrieval/ranking.py: select_temperature_pools (Pools),
--                           final_score and passes_relevance_threshold (FinalScore), and
--                           sort_ranked_candidates (Ranked), retain_relevance_window (Window)
-- The other modules hold lemmas and results; Prelude holds what they share, Tests the examples.
--
-- Conventions. A datetime is the number of microseconds since the least datetime, in UTC; a UUID or
-- a digest is the number that it spells. A float is finite and not negative, since the validators
-- admit no other, and is kept as a whole number of units of 2 ^ -1074; rounding is a parameter with
-- the monotonicity laws of correctly rounded arithmetic, and Tests.Fixed has an instance. An
-- exception is `err` with its class, of a replayable error also its code, message, details and status,
-- or `none` or `false` where only a ValueError can be raised; the messages of other errors are left
-- out. The OverflowError of a timedelta or datetime that Python cannot hold is modelled where a
-- configured duration is made or added. A table is the list of its rows in the order of insertion, and
-- a column is the value that its text or number is read as. What a transaction reads elsewhere in the
-- database is an argument, and so is the outcome of writing events: uow.append_events runs the event
-- store and every projector, and any of them may raise. Loops are recursion on lists, except the
-- binary search of the snapshot's last excerpt, which has as many turns as the excerpt has characters;
-- the results show that more turns change nothing.
--
-- Not modelled: isinstance checks on arguments, which the types settle; the lifecycle worker and the
-- idea planner; the repositories' queries, the other projections, migrations and the storage
-- validation, which are SQL; the rest of the sharing protocol, of retrieval and of inspiration;
-- capture, passports and experiments; the normalization of texts and the digests, which are
-- arguments; the HTTP API, the command line and the wiring, which are glue; fault
-- injection. A response body is the value whose canonical JSON is stored, and a header mapping is a
-- list of pairs, already in lower case.
mod Prelude
pub mod Floats
pub mod Scoring
pub mod Experiences
pub mod Lifecycle
pub mod Storage
pub mod Sharing
pub mod Inspiration
pub mod Retrieval
mod Tests
