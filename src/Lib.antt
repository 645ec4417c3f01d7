-- ===== src/Lib.antt =====
-- CLI Bridge: a local server that carries prompts and answers between a web chat, a command-line agent
-- and a user who confirms what is sent. This library models the stores of apps/local-server/src, which
-- hold the state of the server and decide what may happen next; the HTTP routes, the browser extension
-- and the adapters call them.
--
-- Parts and files
--   Common        Tests by Booleans, lists, JavaScript's insertion-ordered Map, stable sorting, text.
--   Services      What the stores share. Redaction: security/redaction.ts, generic in the rules. Audit:
--                 storage/audit-log.ts. Packets: storage/packet-store.ts and the hash and token
--                 estimate of packages/shared/src/utils. A Services record is the state of all three.
--   Outbound      storage/outbound-prompt-store.ts: Prompts (the record and its validator), Store
--                 (create, recoverStaleClaims), Delivery (claimNext, acknowledge, the markings,
--                 cancel), Reports (the views), Restoring. It creates packets and audit events in its Services.
--   Goals         storage/goal-store.ts: Model, Store (goals and plans), Steps (transitionStep and its
--                 callers), Restoring (hydration). goal/goal-orchestrator.ts: Orchestrator (advance,
--                 runAll), over the store.
--   Pending       storage/pending-prompt-store.ts: Model, Store, and Sending, where sendConfirmedPrompt
--                 is cut at its await into begin_send and finish_send.
--   Relay         storage/web-relay-loop-store.ts: Model, Store, Advance, Restoring. A relay loop
--                 creates, reads, cancels and fails prompts of an Outbound store, which is part of its
--                 state.
--   Proposals     storage/execution-proposal-store.ts: Model, Store (drafts), Operations (confirmation,
--                 edits, dispatch and ends), Queries; Commands is the check of the arguments in
--                 adapters/command-runner.ts. A draft is made for a step of a plan of Goals and a
--                 binding of Bindings.
--   Inbound       storage/inbound-message-store.ts: Model, Store (creation, export, hydration),
--                 Delivery (claims, acknowledgement, cancellation), and the Mailbox that specifies it.
--   Endpoints     endpoints/endpoint-registry.ts: Model, Registry (register, heartbeat,
--                 validateAction).
--   Bindings      storage/automation-binding-store.ts: Model, Hash, Store, Locking (lockBinding and
--                 deriveBinding), and what it decides. It asks the Endpoints and the plans of Goals.
--   Reviews       storage/pending-review-store.ts: Model, Store (drafts), Operations. It asks the
--                 Endpoints, and creates a prompt in a Pending store for the draft of a next prompt.
--   Plans         goal/goal-plan-parser.ts: Extract (where the JSON stands), Model, Tiers (the rules on
--                 tiers), Parser. Its result is a plan that a Goals store can take.
--   Execution     storage/provider-capability.ts: Capabilities. execution/execution-dispatcher.ts:
--                 Dispatcher, cut at its await into begin_dispatch and finish_dispatch, over the store
--                 of Proposals, a binding and a plan.
-- In each part Calls gives the histories: a data type of calls, one step, and runs. The other files
-- prove, and Examples run the code on small inputs.
--
-- How the code is rendered
--   A store is a record that each operation takes and returns, with the operation's result beside it.
--   An answer of undefined is none, and a call that may throw on a validation returns an Attempt.
--   Records that the code clones are values. Where it shares objects and that can be seen, the objects
--   are modelled: in Pending by addresses, since a waiting send holds an object that other calls write;
--   in Relay by the state that a refused prompt leaves in the middle of advance. Times and counts are
--   natural numbers, and Date.now is an argument of each call. A subtraction of times that would be
--   negative is 0, which the comparisons of the code treat alike. A validator is the list of its errors
--   for what the types leave open; an assertion that cannot fail on a value of its type is left out, as
--   its definition says.
--
-- Parameters
--   The random identifiers (uuid, by the number drawn so far) and the SHA-256 digest come with the
--   Services; the goal store has its own uuid. The redaction rules are a list of a test and a
--   replacement. The proposals have their own uuid and digest, and JSON.stringify of a text; so have
--   the bindings, with Date.parse. JSON.parse, and how a number prints, are parameters of the parser of
--   plans. A delivery of the agent adapter is an argument, and may come back in any order; so is the
--   end of a command that a dispatch runs.
--
-- Bounds and fuel
--   Only runAll loops on fuel: the source's own bound, twice the ceiling on steps. The bound on the
--   rounds of a relay loop (10), the lease of a claim (60 seconds) and the authorisation of a prompt
--   (10 minutes) are the source's constants.
--
-- Not modelled
--   The checks that an unknown value of a JSON snapshot is a record, and the hydration of the pending
--   prompts; the ten regular expressions of the redaction, the remaining stores (bridge loops, binding
--   snapshots, projects and teams, workspace changes), the routes, consoles, model and agent adapters,
--   and the extension: I/O and presentation, or later work.
pub mod Common
pub mod Services
pub mod Outbound
pub mod Endpoints
pub mod Bindings
pub mod Goals
pub mod Inbound
pub mod Pending
pub mod Relay
pub mod Reviews
pub mod Plans
pub mod Proposals
pub mod Execution
