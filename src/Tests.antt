-- ===== src/Tests.antt =====
-- Runs of the code at small inputs, one for each theorem that has conditions.
mod Arrays
mod Descriptors
mod Dispatches
mod Events
mod Messages
mod Schedules
mod Sessions
mod Streams
mod Strings
mod Timers
