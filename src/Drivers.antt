-- ===== src/Drivers.antt =====
-- The programs that try out the parts, those that can be built.
pub mod Buffers
pub mod Responses
pub mod Threads
pub mod Pool
pub mod Doc
pub mod Requests
