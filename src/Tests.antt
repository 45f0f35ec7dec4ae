-- ===== src/Tests.antt =====
-- Runs of the model on a small world, and what the theorems say there.
mod World
mod Cache
mod Rest
mod Serving
mod Answers
mod Views
