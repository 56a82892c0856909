-- ===== src/Tests.antt =====
-- Runs of the models on concrete inputs, at which the theorems are applied.
pub mod Queue
pub mod Publication
pub mod Shares
pub mod Insights
pub mod Views
pub mod Graphs
pub mod Records
