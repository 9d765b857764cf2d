-- ===== src/Swap.antt =====
-- src/migration/encrypted/marker.rs: replacing the files of a database so that a crash at any moment
-- leaves it as it was or as it is to become. A target is modelled with the files at its names, the
-- file system as the list of the targets and the marker files. Every operation is the list of the
-- states on disk after each of its steps, so that a crash is a state of that list.
pub mod Trace
pub mod Names
pub mod Slot
pub mod Disk
mod Examples
