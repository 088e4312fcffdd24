-- ===== src/Proxy.antt =====
-- internal/proxy: parts of the proxy server with logic of their own.
pub mod Der
pub mod Spnego
pub mod Tunnel
pub mod TransportCache
pub mod Digest
pub mod Ntlm
pub mod ClientAuth
mod AuthExamples
mod Examples
