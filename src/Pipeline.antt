-- ===== src/Pipeline.antt =====
-- dns_forwarder/pipeline: what a request carries, the messages made for it, and its way through the
-- plugins and the dispatcher.
pub mod Context
pub mod Messages
pub mod Requests
pub mod Nested
pub mod Engine
