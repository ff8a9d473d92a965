-- ===== src/Nameservers.antt =====
-- dns_forwarder/resolver/nameservers: the nameservers that the program implements itself.
pub mod Dnscrypt
