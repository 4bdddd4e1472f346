-- ===== src/Tests.antt =====
-- Runs of the modelled code, and its theorems at concrete inputs.
mod Decisions
mod Containers
mod AbsentFields
mod Trees
mod Delegation
mod Agents
mod Revocations
mod Leases
mod Streams
