-- ===== src/Dns.antt =====
-- internal/dns: the providers of DNS records, and the reconciler that keeps the records equal to
-- the healthy backends.
pub mod Provider
pub mod Ips
pub mod Mock
pub mod Reconciler
pub mod Cloudflare
