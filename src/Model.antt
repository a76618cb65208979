-- ===== src/Model.antt =====
-- ipp-async/src/model.rs: what printers and jobs are, and how each is decoded from the attributes
-- of a group.
pub mod PrinterState
pub mod JobState
pub mod StateReason
pub mod Supply
pub mod PrintQuality
pub mod PrinterOptions
pub mod MediaSize
pub mod Class
pub mod Document
pub mod Ppd
pub mod Written
pub mod Wire
pub mod Printer
pub mod Job
pub mod States
pub mod Decoded
