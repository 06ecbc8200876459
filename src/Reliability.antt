-- ===== src/Reliability.antt =====
-- src/reliability: what went wrong is classified by reason code and source, and the controller
-- picks one recovery action. The hash of a JSON value (canonical key order, JSON.stringify and
-- SHA-256) and the order of `localeCompare` are parameters.
pub mod Types
pub mod Classifier
pub mod Controller
pub mod Adapters
mod Tests
