-- ===== src/Exit.antt =====
-- crates/rf/src/exit.rs: split-routing rules, the matcher they are compiled to, and the devices that use
-- them.
pub mod Errors
pub mod Address
pub mod Spec
pub mod Rules
pub mod Index
pub mod Classify
pub mod DeviceSpec
pub mod Device
pub mod Cache
mod Tests
