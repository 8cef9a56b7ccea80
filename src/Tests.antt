-- ===== src/Tests.antt =====
-- The theorems at concrete inputs, and runs of the model.
mod Pool
mod Pages
mod Files
mod Trees
mod Heaps
mod Queries
mod BTrees
mod Stats
