-- ===== src/Lib.antt =====
-- The protocol core of a2a-fun, an agent-to-agent friendship network: what its own code decides,
-- apart from sockets, files, clocks and cryptography. Two nodes hold a session. The inbound pipeline
-- checks an envelope, asks for the sender's key, has the signature verified and the body decrypted,
-- checks the body and hands the message to the session manager, whose answer is written to the audit
-- log. Local events, such as the entry of the human, go to the session manager as well. Once both
-- sides have entered, the trigger writes the peer into the friends file. The probe engine chooses
-- the questions of a probe, and the outbound builder makes the envelopes that leave the node. The
-- relay carries texts between nodes that have registered with it. Nodes find each other through the
-- bootstrap registry, to which they announce themselves. The formal entry hands what comes in to the
-- pipeline and makes a friendship record of a probe that both sides have confirmed; friends then
-- invoke each other's capabilities. A payload leaves by a direct request or over the relay. Beside that, nodes exchange tasks, whose tables are merged, and
-- keep a ledger of their reputation and one of their rewards.
--
-- Files, and the code that each is about (paths from the root of the repository):
--   Prelude                 shared names; Prelude.Throws: code that throws; Prelude.Maps: `Map`;
--                           Prelude.Text, Prelude.Patterns: strings and regular expressions;
--                           Prelude.Values: JavaScript values as the checks tell them apart
--   Identity.Lint           src/identity/outboundLint.mjs: findContactLikeToken, assertNoRawHandle
--   Phase2.Constants        src/phase2/config/phase2.constants.mjs
--   Phase2.SafeText         src/phase2/body/safeText.mjs: validateSafeShortText
--   Phase2.SafeArray        src/phase2/body/safeArray.mjs: validateSafeStringArray
--   Phase2.Checks, Hello, Body
--                           src/phase2/body/body.schema.mjs: validateDecryptedBodyByType
--   Phase2.Envelope         src/phase2/envelope/envelope.schema.mjs: validateEnvelope
--   Phase2.Session          src/phase2/session/session.manager.mjs, session.types.mjs: the state, the
--                           audit core and the result; .Inbound: applySessionMessage; .Local:
--                           applyLocalEvent; .Rules: the protocol as a step relation
--   Phase2.Processor        src/phase2/processor/protocolProcessor.mjs: processInbound,
--                           processLocalEvent; bindAuditEventCore of
--                           src/phase2/audit/audit.binding.mjs
--   Phase3.Friendship       src/phase3/friendship/friendshipWriter.mjs, friendshipTrigger.mjs
--   Phase3.Probe            src/phase3/session: applySessionProbeMessage
--   Phase4                  src/phase4/probe/probeEngine.mjs: assertTranscript, analyzeSequence, next
--   Phase5.Binding          src/phase5/handshake/peerKeyBinding.mjs, src/phase5/keys/fingerprint.mjs
--   Phase7.Outbound         src/phase7/egress/formalOutboundBuilder.mjs
--   Relay.Frames            readWsFrames, writeWsText, writeWsPong of src/relay/relayServerV2.mjs and
--                           src/relay/relayCoreV0_1.mjs
--   Relay.Json              the length of what writeWsText is given
--   Relay.Core              src/relay/relayCoreV0_1.mjs: REGISTER, SEND, touch, disconnect and the sweep
--   Relay.V2                src/relay/relayServerV2.mjs: registration, routing, cleanup and traces
--   Bootstrap               src/bootstrap/bootstrapServer.mjs: publish-self, heartbeat, peers, the counts
--                           of computeStats; .Active, .Listing: who is listed; .Refusals: errors
--   Candidate               src/friendship: createFriendshipCandidate, both confirmations,
--                           triggerFriendshipPersistence
--   Inbound                 src/runtime/inbound/formalInboundEntry.mjs
--   Capability              src/capability: reference, invocation request, invocation result
--   Execution               src/execution: handler registry, executeInvocation, adaptExecutionResult
--   Remote                  src/remote: sendRemoteInvocation, handleRemoteInvocation,
--                           sendRemoteInvocationResult, handleRemoteInvocationResult
--   Reputation              src/reputation/reputation.mjs: the ledger, its limits, the index
--   RelayClient             src/runtime/transport/relayClient.mjs and what it uses of
--                           src/runtime/network/relaySingleton.mjs
--   Transport               src/runtime/transport: checkDirectReachability, selectTransport,
--                           decideTransport, executeTransport
--   Reward                  src/reward/reward.mjs: the ledger of credits, the balances
--   Tasks                   src/tasks: taskSchema; .Store: taskStore; .Claim: taskClaim; .Receiver:
--                           taskReceiver, taskDedup; .Recovery: taskRecovery; .Sync: taskSync;
--                           .Messages: taskMessages
--   Tests                   runs on concrete inputs
--
-- How code becomes definitions. A function that throws returns an `Outcome`, with one constructor
-- for each error. The session manager, the probe and the key binding are pure in the code and stay
-- functions from state to state. The friends file and the tables of the relay are passed on as
-- state; what a relay writes to its sockets is collected in the order of the writes. A JavaScript
-- value is a `Value`; a body that the code changes in place is the result of its check. Strings are
-- measured and searched in UTF-16 units. A regular expression is a `Regex`, whose `test` looks at
-- every way to match, so greed and backtracking play no part in its answer.
--
-- An object that is written to is its list of fields, and a file that holds a table is the table: it
-- goes into an operation and comes out. Where the code keeps references into a table (`byId` of the
-- merge), the model keeps places in it. A plain object that is looked up by a foreign key is asked
-- for its own keys and for the inherited ones (`lookup`, `rank_of`).
--
-- Loops. Every loop is structural, with one exception: `read_ws_frames` cuts frames from a buffer on
-- fuel, which is the length of the buffer. That is enough since every frame that is cut is not
-- empty. A repetition without an upper bound in a `Regex` takes at most as many rounds as there are
-- units left, and each round takes one unit at least.
--
-- Handed in from outside. The key resolver, the verifier, the decrypter, `encrypt`, `sign` and the
-- hashes are arguments, as they are in the code or since they are Node's crypto. The clock and the
-- failure of a write are arguments too. The requests and the sockets of the transport are a
-- `Network`, of which only the theorem on the way over the relay asks something. `toLowerCase` is
-- kept to the characters whose lower case a pattern can accept. `Date.parse`, `localeCompare`,
-- `toUpperCase`, the digest of a JSON text and the arithmetic of floats are arguments, without
-- hypotheses except that adding zero changes no score.
--
-- Not modelled: the HTTP and socket layers, the relays' upgrade handshake, log and diagnostics, key
-- files, the canonical JSON printer, discovery, the execution of tasks, the market and the social
-- layer. The error messages are left out, as are the path and the hashed preview in an error of the
-- lint and the `debug` fields of the processor's results. Numbers inside objects are natural, and
-- below 10^21 where they are written as texts; keys are sorted by code points, and objects with keys
-- that are whole numbers keep the order of insertion.
pub mod Prelude
pub mod Identity
pub mod Phase2
pub mod Phase3
pub mod Phase4
pub mod Phase5
pub mod Phase7
pub mod Relay
pub mod Bootstrap
pub mod Capability
pub mod Candidate
pub mod Execution
pub mod Remote
pub mod Inbound
pub mod Reputation
pub mod Reward
pub mod Tasks
pub mod RelayClient
mod Tests
pub mod Transport
