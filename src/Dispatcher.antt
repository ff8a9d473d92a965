-- ===== src/Dispatcher.antt =====
-- dns_forwarder/dispatcher: how a group of upstreams is asked, and which result is taken.
pub mod Base
pub mod Strategies
pub mod Registry
pub mod Failures
pub mod Racing
pub mod Endings
pub mod Termination
pub mod Configured
