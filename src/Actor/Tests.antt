-- ===== src/Actor/Tests.antt =====
-- The actor components on concrete histories.
mod Queueing
mod Registering
mod Timing
mod Looping
mod Living
mod Eventing
mod Calling
mod Stopping
