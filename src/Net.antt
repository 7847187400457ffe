-- ===== src/Net.antt =====
-- src/mg/net: the buffers of the network code.
pub mod Buffer
pub mod Stream
pub mod LinkList
