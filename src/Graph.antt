-- ===== src/Graph.antt =====
-- The graph of menus that the editor draws: ui/src/lib/fn-graph.ts.
pub mod Layout
pub mod Script
