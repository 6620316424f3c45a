-- ===== src/Nachos.antt =====
-- Integrated_Networks_OS_Project/NachOSx64/code: the parts of the NachOS kernel that the project
-- wrote or rests on. An int is its 32-bit pattern, so that a test `0 <= i && i < n` is `i < n`, and
-- -1 is 2 ^ 32 - 1.
pub mod Outcome
pub mod BitMap
pub mod OpenFiles
pub mod Synch
pub mod AddrSpace
pub mod Kernel
pub mod Syscalls
