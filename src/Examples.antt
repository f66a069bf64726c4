-- ===== src/Examples.antt =====
-- The theorems at concrete inputs that meet their hypotheses, and tests of the definitions.
mod Health
mod World
mod Dns
mod Lb
mod Mock
mod Sessions
mod Auth
mod Handlers
mod Cloudflare
mod Access
mod Server
mod Users
mod Login
mod Audit
mod Routes
mod Store
mod Site
mod Settings
