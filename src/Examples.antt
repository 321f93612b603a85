-- ===== src/Examples.antt =====
-- The headline theorems at concrete inputs, and runs of the definitions on small data.
mod Board
mod Policies
mod Frames
mod Network
mod Documents
mod Screens
mod Cycles
mod Blank
mod Presses
mod Drawings
mod Chunks
