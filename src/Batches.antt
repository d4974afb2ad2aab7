-- ===== src/Batches.antt =====
-- The batch files: scripts/divide_into_batches.cpp writes them, microbench/edit_scalability.cpp and
-- scripts/count_batched.cpp read them. A file is the list of its character codes.
pub mod Streams
pub mod Decimal
pub mod Reader
pub mod Counter
pub mod Writer
pub mod Lines
pub mod Rendered
pub mod Written
pub mod Totals
pub mod Ranges
pub mod Division
pub mod RoundTrip
pub mod Recount
pub mod Counts
pub mod Results
mod Tests
