-- ===== src/Tests.antt =====
-- The code at concrete inputs, and each theorem at one at which its hypotheses hold.
mod Bitmaps
mod Lists
mod Threads
mod Locks
mod Rings
mod Starts
mod Keys
mod Pages
mod Texts
mod Blocks
mod Formats
mod Gates
mod Heaps
mod Processes
mod Tables
