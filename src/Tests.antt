-- ===== src/Tests.antt =====
-- Runs of the theorems at concrete inputs, part by part.
mod FileSystem
mod Server
mod Simulation
mod Catalogue
mod Nachos
mod Barriers
mod AddrSpace
mod Syscalls
mod Fork
mod AsciiServer
mod Network
mod Serving
mod Whole
