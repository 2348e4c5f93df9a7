-- ===== src/Core/Broker.antt =====
-- src/core/deferred-tool-broker.ts: which deferred tool calls wait for their result, under which
-- public id and for which profile.
-- A promise of `awaitCall` is a number, and `settled` lists the promises with what settled them. A
-- timer is the time at which it is due; it is cleared with its entry. A listener is an abort signal
-- (a number) with the key that its callback fails. `C` is the context of a call, `R` its result.
pub mod Key
pub mod State
pub mod Operations
pub mod Events
pub mod Invariant
pub mod Cases
pub mod Preservation
pub mod Claims
pub mod Spent
pub mod Creation
pub mod Scope
pub mod Waiting
pub mod Promises
mod Tests
