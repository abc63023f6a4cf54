-- ===== src/Github.antt =====
-- github_integration/: what of a repository a diagnosis reads, and the patch that it proposes.
pub mod Paths
pub mod Workspace
pub mod Workflow
pub mod SourcePolicy
pub mod SourceContext
pub mod Directory
pub mod Session
mod Tests
