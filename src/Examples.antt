-- ===== src/Examples.antt =====
-- The theorems of the development at concrete inputs.
pub mod Plans
pub mod Reports
pub mod Queue
pub mod Tables
pub mod Parallel
pub mod Leases
pub mod History
pub mod Validation
pub mod Messages
pub mod Transcripts
pub mod Views
pub mod Runs
pub mod Binding
