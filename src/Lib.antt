-- ===== src/Lib.antt =====
-- serverbox: a model of the C++ server library, checked part by part.
--
-- The containers (src/mg/box), one module each under Box:
--
--   Box/ForwardList.antt      src/mg/box/ForwardList.h. A memory holds list objects (`first_of`,
--                             `last_link`) and items (`link`); `append` is Append(T*), `append_list`
--                             Append(ForwardList&&), `pop_first` PopFirst, and so on.
--   Box/BinaryHeap.antt       src/mg/box/BinaryHeap.h, the intrusive heap: `push` is Push, `update_up`
--                             PrivUpdateUp, `down_loop` the loop of PrivUpdateDown. The order of the
--                             objects is a parameter, a total preorder.
--   Box/SubQueue.antt         MCQBaseSubQueue of src/mg/box/MultiConsumerQueueBase.cpp, the bounded
--                             array of the multi-consumer queue; Box/SubQueue/Sharing.antt lets its
--                             producer and its consumers run interleaved.
--   Box/ConsumerQueue.antt    MCQBaseQueue and MCQBaseConsumer of the same file: `push_item` is Push,
--                             `consumer_pop` the consumer's Pop, `collect_garbage` the recycling.
--   Box/FrontQueue.antt       src/mg/box/MultiProducerQueueIntrusive.h: `push_chain` is
--                             PrivPushRange, `take_all` PopAll.
--   Box/Signal.antt           src/mg/box/Signal.cpp: `Step` is a step of a thread in Send, Receive,
--                             ReceiveBlocking or ReceiveTimed.
--   Box/InterruptibleMutex.antt   src/mg/box/InterruptibleMutex.cpp: `act` is a step of a thread in
--                             Lock, TryLock or Unlock.
--   Box/Time.antt             src/mg/box/Time.h: `point_from_now` is TimeDuration::ToPointFromNow.
--   Box/IoVec.antt            src/mg/box/IOVec.cpp: `propagate_vectors` is IOVecPropagate.
--   Box/Links.antt            chains of link fields, which the intrusive lists share.
--
-- The scheduler (src/mg/sch), under Sch:
--
--   Sch/Task.antt             src/mg/sch/Task.cpp: `World` holds the fields of all tasks and the
--                             queues; `post_wakeup` is PostWakeup, `post_signal` PostSignal.
--   Sch/Scheduler.antt        src/mg/sch/TaskScheduler.cpp: `wait_loop` and `pend_loop` are the loops
--                             of PrivSchedule, `schedule` the whole of it, `execute` PrivExecute.
--   Sch/Places.antt           the invariant `IsOrderly`: where a task of each status may be.
--   Sch/Places/Runs.antt      `Step` is a step of one thread: Post, PostWakeup and PostSignal are two
--                             steps, with `flying` for the pushes that are still ahead.
--
-- The network code (src/mg/net), under Net:
--
--   Net/Buffer.antt           Buffer and the functions on chains of buffers, of src/mg/net/Buffer.h
--                             and src/mg/net/Buffer.cpp: `propagate` is Buffer::Propagate,
--                             `vectors_for_write` BuffersToIOVecsForWrite, and so on.
--   Net/Buffer/References.antt  BuffersRef.
--   Net/Stream.antt           class BufferStream of the same files: its state and the operations that
--                             write bytes; Net/Stream/Reading.antt has those that read, and
--                             Net/Stream/Linking.antt WriteRef and PopData. Net/Stream/Shape.antt is
--                             the invariant `IsStream`, what PrivCheck checks, and `bytes_of`, the
--                             bytes that a stream holds, which the other modules specify it by.
--   Net/LinkList.antt         class BufferLinkList, the lists of shared chains, and the functions on
--                             them; Net/LinkList/Copying.antt is BuffersCopy of links.
--
-- How the parts interact: the task scheduler (src/mg/sch) keeps its tasks in a multi-producer queue
-- that is linked through the tasks, in a binary heap of those that wait for a deadline, and in a
-- multi-consumer queue of those that are ready. The heap of the scheduler is that of
-- Box/BinaryHeap.antt; the front and the ready queue are lists, first in, first out. The sockets send
-- lists of links and receive into streams; both are chains of the buffers of Net/Buffer.antt.
--
-- Pointers are numbers, a null pointer is `none`, and an index of -1 is `none`. An access out of
-- bounds, a null dereference and a failed assertion are faults, `none`. Sizes stay below the limits
-- of their types. Loops run on fuel: `length` of the items and one more is enough for the heap, one
-- round per item for the lists, one per byte for the buffers. The bound of the scheduler's loops is
-- the code's own, the batch size less one. A failed weak exchange is an entry of the list of
-- exchanges that a consumer makes.
--
-- Not modelled: the system calls and threads, TLS, the heap's variants that store no index, memory
-- orders weaker than sequential consistency, and the memory allocator.
pub mod Prelude
pub mod Box
pub mod Net
pub mod Sch
