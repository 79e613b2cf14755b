-- ===== src/Examples.antt =====
-- Concrete runs of the models, with levels in millionths.
mod Data
mod Kernel
mod Store
mod Loops
mod Memories
mod Soul
mod Realtime
mod Files
mod Speech
