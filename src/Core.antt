-- ===== src/Core.antt =====
-- src/core: the types that every part of the Router shares, and the decisions that no provider or
-- surface makes for itself.
pub mod Json
pub mod Errors
pub mod Profile
pub mod Model
pub mod BoundedQueue
pub mod Broker
pub mod ToolPolicy
pub mod ToolKind
pub mod ScopedActions
mod Tests
pub mod ToolAccess
pub mod RouterEvent
pub mod RequestControls
pub mod ToolResultBound
pub mod ToolArguments
pub mod Capabilities
