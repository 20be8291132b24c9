-- ===== src/Recovery.antt =====
-- infrastructure/system/error_recovery: the retry context, the retry loop of
-- `executeWithRetryInternal`, the statistics and the circuit breaker.
pub mod Classify
mod Context
mod Manager
mod Loop
mod Calls
mod Outcomes
mod Breaker
mod Delays
mod Examples
