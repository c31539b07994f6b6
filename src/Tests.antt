-- ===== src/Tests.antt =====
-- Concrete runs of the model, and the theorems at concrete inputs.
mod Toy
mod Blocks
mod Sender
mod Reblocking
mod Receiving
mod Files
mod Batching
mod Link
mod Workers
mod Programs
mod Serving
mod Streams
mod Servers
mod FilePrograms
