-- ===== src/Tests.antt =====
-- Tests of the definitions on concrete inputs, and the theorems applied at such inputs.
mod Pages
mod Victims
mod Memory
mod Logging
mod Pipes
mod Text
mod Processes
mod Matching
mod Files
mod Cache
mod Arguments
mod Names
mod Swapping
mod Commands
mod Writing
mod Inodes
mod Spaces
mod Lines
mod Locks
