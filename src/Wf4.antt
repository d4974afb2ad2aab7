-- ===== src/Wf4.antt =====
-- wf4/: the workflow on the distributed trade network.
pub mod Network
pub mod Import
pub mod Options
pub mod Quiesce
pub mod Influence
mod Tests
mod InputTests
