-- ===== src/Examples.antt =====
-- Concrete machines, requests and records, and the theorems applied to them.
mod Runs
mod Bridge
mod Loop
mod Scrub
mod Evidence
mod Traces
mod Hosts
mod Keys
mod Settings
mod Boundary
mod Overview
mod Compiled
