-- ===== src/Control.antt =====
-- Running the inferior: `resume`, `wait_on_signal`, `step_instruction`, `attach`, the destructor, and
-- what they call, of src/process.cpp.
pub mod Syscall
pub mod Stop
pub mod Resume
pub mod Keeps
pub mod Augment
pub mod Running
pub mod Reach
pub mod StepOver
pub mod Caught
pub mod OwnBytes
pub mod Unseen
pub mod Creation
pub mod Patching
