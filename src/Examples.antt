-- ===== src/Examples.antt =====
-- Runs of the code on concrete inputs, one for each theorem with hypotheses.
mod Buffers
mod Lookups
mod Messages
mod Links
mod Routes
mod Clocks
mod Wires
mod Builds
mod Contacts
mod Routers
mod Sessions
