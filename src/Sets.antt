-- ===== src/Sets.antt =====
-- The sets of domains and addresses that tags are given by: dns_forwarder/core/tag_files.py,
-- domainset.py and ipset.py.
pub mod Texts
pub mod Labels
pub mod Files
pub mod Listed
pub mod Domains
