-- ===== src/Adapters.antt =====
-- src/adapters: what the adapters of the providers' protocols share.
pub mod Sse
