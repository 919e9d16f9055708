-- ===== src/Internal.antt =====
-- The machinery of internal/: the protobuf transport (python.go), the instance with its operations,
-- its release queue and its interrupt words (instance.go), and callback dispatch (dispatch.go).
pub mod Proto
pub mod Instance
pub mod Transport
pub mod MethodIds
pub mod Ops
pub mod Interrupt
pub mod Closing
pub mod Release
pub mod Drain
pub mod Answered
pub mod Exports
pub mod Sandbox
pub mod Module
pub mod Start
pub mod Global
