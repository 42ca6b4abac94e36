-- ===== src/Model.antt =====
-- internal/model: the records that the engine works on.
-- A `uuid.UUID` is the number that its sixteen bytes stand for, a `time.Time` a number of
-- nanoseconds, and a pointer that may be nil an `Option`.
pub mod Value
pub mod Workflow
pub mod Execution
