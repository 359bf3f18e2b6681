-- ===== src/Schedule.antt =====
-- The schedule of studysys/schedule.c: its entries, their order, the text file that keeps them, and
-- the commands of its menu.
pub mod Entry
pub mod Align
pub mod File
pub mod Session
pub mod Loads
pub mod Show
pub mod Delete
pub mod Change
pub mod Register
pub mod Ends
pub mod Current
