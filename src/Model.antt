-- ===== src/Model.antt =====
-- src/model.rs: who is measured, and what one measured event is.
pub mod Provider
pub mod Mode
pub mod Dataset
pub mod Keys
