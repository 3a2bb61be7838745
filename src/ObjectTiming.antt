-- ===== src/ObjectTiming.antt =====
-- pkg/objecttiming: from the lines of an audit log to the durations of the creations and scalings
-- of Kubernetes objects.
pub mod Types
pub mod Records
pub mod Criteria
pub mod Store
pub mod Create
pub mod Scale
pub mod Pods
pub mod Parse
pub mod Print
