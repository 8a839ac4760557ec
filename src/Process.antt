-- ===== src/Process.antt =====
-- `class process` (include/libsdb/process.hpp, src/process.cpp): its data, and the way that its
-- operations change it and fail. The operations are in the modules for what they do.
pub mod State
pub mod Run
pub mod StopReason
pub mod Keeps
