-- ===== src/Share.antt =====
-- rightmemory/share_models.py: the registry of share relationships, `shares.toml`.
pub mod Fields
pub mod Validate
pub mod Load
pub mod Save
