-- ===== src/FileSystem.antt =====
-- Integrated_Networks_OS_Project/Server/FileSystem/FileSystem.c and Structures.c: the disk of blocks
-- of 256 bytes that the servers read their drawings from. The disk is the file disk.dat. Reads and
-- writes take effect at once: the streams that one call opens on the disk never read a byte that
-- another stream still holds back.
pub mod Disk
pub mod Blocks
pub mod Directory
pub mod Drawing
pub mod Allocate
pub mod Chain
pub mod Content
pub mod Entry
pub mod NewEntry
pub mod WriteFile
pub mod Mount
pub mod Catalogue
