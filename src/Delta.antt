-- ===== src/Delta.antt =====
-- csv/delta_compression.cpp: the byte encodings, the detection of changes, and the application of a delta.
pub mod Runs
pub mod Numbers
pub mod Window
pub mod Searching
pub mod Unwinding
pub mod Records
pub mod Columns
pub mod Patching
pub mod Matching
pub mod Loops
pub mod Detecting
pub mod Applying
pub mod Keyed
pub mod Keys
pub mod Reports
pub mod Frames
pub mod Hybrid
pub mod Texts
mod Examples
