-- ===== src/EventCache.antt =====
-- event_cache.hpp and event_cache.cpp: the queue of events that lies partly in memory and partly
-- in files.
pub mod Format
pub mod Queue
