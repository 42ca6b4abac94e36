-- ===== src/Dag.antt =====
-- internal/engine/dag.go: the dependency graph of a workflow.
mod Graph
mod Ready
pub mod Build
pub mod Edges
pub mod Unknown
pub mod Declared
pub mod Degrees
pub mod Sort
pub mod Progress
unfoldable pub use Graph.*
unfoldable pub use Ready.*
