-- ===== src/Net.antt =====
-- net_io: buffers, codecs and load balancing.
pub mod Buffer
pub mod Line
pub mod RawCodec
pub mod ClientChannel
pub mod Client
pub mod ConsistentHashMap
mod Tests
