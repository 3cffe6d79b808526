-- ===== src/Tests.antt =====
-- Runs of the code at fixed inputs, and the theorems at inputs that meet their hypotheses.
mod Db
mod Ipp
mod Jobs
mod Ftw
mod Getenv
mod Opend
mod Popen
mod Threads
mod Status
mod Tools
mod Tty
mod Whole
