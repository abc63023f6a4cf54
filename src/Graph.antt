-- ===== src/Graph.antt =====
-- graph: the storms of correlated incidents.
pub mod Tables
pub mod Neighbours
pub mod Merging
pub mod Members
pub mod StormGrouping
pub mod Observation
pub mod RootCause
pub mod Redirection
