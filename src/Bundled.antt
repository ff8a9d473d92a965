-- ===== src/Bundled.antt =====
-- plugins: the plugins that come with the program.
pub mod QueryLog
pub mod SpeedTest
pub mod Tag
pub mod Redirect
pub mod IpFilter
pub mod IpReplace
pub mod Block
pub mod Https
