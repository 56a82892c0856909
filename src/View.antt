-- ===== src/View.antt =====
-- rightmemory/shared_view_models.py: the registry of shared views, `shared_views.toml`.
pub mod Models
pub mod Registry
pub mod Save
pub mod Credentials
