-- ===== src/Tests.antt =====
-- A machine that stands for the operating system, and the theorems at concrete inputs on it.
mod Machine
mod Sites
mod Points
mod Steps
mod Texts
mod Tables
mod Lines
mod Programs
mod Sessions
mod Patches
