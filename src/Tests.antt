-- ===== src/Tests.antt =====
-- Concrete inputs, and the theorems applied to them.
mod Answering
mod Buffers
mod Drivers
mod Http
mod Program
mod Queues
mod Reach
mod Rounds
mod Service
mod Statements
mod Threads
