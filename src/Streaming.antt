-- ===== src/Streaming.antt =====
-- uni_api/streaming/bounded_queue.py: bytes retained by streams, and the queue between the
-- reader of an upstream and the sender of a response.
pub mod Budget
pub mod Queue
