-- ===== src/Box.antt =====
-- src/mg/box: the containers of the library.
pub mod Links
pub mod ForwardList
pub mod BinaryHeap
pub mod SubQueue
pub mod FrontQueue
pub mod ConsumerQueue
pub mod Signal
pub mod Time
pub mod IoVec
pub mod InterruptibleMutex
