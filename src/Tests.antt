-- ===== src/Tests.antt =====
-- The theorems at concrete inputs that meet their hypotheses.
pub mod TextTests
pub mod LoggerTests
pub mod StatusTests
pub mod EventTests
pub mod FileTests
pub mod CacheTests
pub mod FileWriterTests
pub mod QueueTests
pub mod ConfigTests
pub mod RollTests
pub mod TimeTests
