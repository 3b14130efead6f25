-- ===== src/Serving/Live.antt =====
-- What holds of an engine between the steps that its phases are made of.
pub mod Tally
pub mod Invariant
pub mod Sums
pub mod Moves
pub mod Progress
pub mod Requests
pub mod Results
pub mod Batches
pub mod Execute
pub mod Cancel
pub mod Cancels
pub mod Admit
pub mod Ticks
pub mod Reach
pub mod Begin
