-- ===== src/Examples.antt =====
-- The theorems applied to small concrete inputs, file by file: the maps of src/utils, the thread
-- pool and its waits, a session of src/core/manager, the session manager, the program that
-- src/core/startup.cpp starts, the buffers and descriptors of src/utils, and its texts and numbers.
mod Maps
mod Pool
mod Waits
mod Session
mod Manager
mod Runs
mod Utils
mod Buffers
mod Texts
