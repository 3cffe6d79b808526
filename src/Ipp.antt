-- ===== src/Ipp.antt =====
-- ipp: the print spooler of ipp/printd.c.
pub mod Jobs
pub mod Workers
pub mod Options
pub mod Printer
pub mod Client
pub mod Submit
pub mod Status
