-- ===== src/Config.antt =====
-- dns_forwarder/config/models.py: the configuration and its validation.
pub mod Model
pub mod Cycles
pub mod References
