-- ===== src/FileSys.antt =====
-- The file system of nachos-csci402/code/filesys: file headers and directories.
pub mod FileHeader
pub mod Store
pub mod OpenFile
pub mod System
pub mod Directory
