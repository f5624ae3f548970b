-- ===== src/Graph.antt =====
-- The support graph: app/graph.
pub mod State
pub mod Edges
pub mod Nodes
pub mod Routing
pub mod Workflow
pub mod Guards
pub mod Context
pub mod Accounts
pub mod Journeys
