-- ===== src/Tests.antt =====
-- Concrete inputs for the theorems, and runs of the code on them.
mod Samples
pub mod OfPins
pub mod OfStore
pub mod OfExecutions
pub mod OfPairs
pub mod OfTargets
pub mod OfRequests
pub mod OfJobs
pub mod OfAuth
