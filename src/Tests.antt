-- ===== src/Tests.antt =====
-- Runs of the definitions on small inputs, and the theorems applied to them.
mod Editing
mod Keys
mod Minibuffer
mod Screen
mod Lines
mod Buffers
mod Names
mod Prompt
mod Searching
mod Dispatching
mod Typing
mod Terminal
