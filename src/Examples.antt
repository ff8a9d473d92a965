-- ===== src/Examples.antt =====
-- Concrete configurations, messages and runs, at which the theorems apply.
pub mod Data
mod Config
mod Dispatcher
mod Nested
mod Registrations
mod Workers
mod Https
mod SpeedTest
mod Redirect
mod Tag
mod Dnscrypt
mod Domains
mod Relay
mod Resolver
mod FrontCache
mod IpFilter
mod IpReplace
mod Block
mod Pipeline
mod Plugins
