-- ===== src/Printer.antt =====
-- apue.3e/printer: the print spooler.
pub mod Jobs
pub mod Workers
