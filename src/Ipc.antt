-- ===== src/Ipc.antt =====
-- ipc: the control socket's text formats.
pub mod Json
pub mod Request
