-- ===== src/Tests.antt =====
-- Runs of the components on concrete inputs, and each theorem at an input that meets its hypotheses.
mod Session
mod Relay
mod Texts
mod Phases
mod Probes
mod Binding
mod Pipeline
mod Core
mod Ledgers
mod Tasks
mod Transports
mod Registry
mod Entries
mod Invocations
