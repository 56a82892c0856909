-- ===== src/Graph.antt =====
-- rightmemory/graph.py: the graph of Memory and Pursuit items that the Markdown documents hold.
pub mod Grammar
pub mod Nodes
pub mod Headings
pub mod Model
pub mod Lines
pub mod State
pub mod Sections
pub mod Bodies
pub mod Parse
pub mod Load
pub mod Validate
pub mod Entry
