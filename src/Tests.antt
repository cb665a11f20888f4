-- ===== src/Tests.antt =====
-- Runs of the models at concrete inputs, and the instances of the theorems there.
mod Device
mod Commands
mod Files
mod FileRuns
mod Mounts
mod Listings
mod Ranges
mod Reopening
mod Probe
mod Browsers
mod Sessions
mod Fastboot
mod Worker
