-- ===== src/Amw0.antt =====
-- src/backends/amw0: the backend that reaches the embedded controller through an ACPI call file.
pub mod Host
pub mod Packet
pub mod Transport
pub mod Readback
pub mod Control
pub mod Device
pub mod Access
pub mod Live
pub mod ReadState
pub mod Apply
pub mod FanPlan
pub mod Ops
pub mod Encoding
pub mod Printed
pub mod DryRun
pub mod Failure
