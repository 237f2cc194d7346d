-- ===== src/Lib.antt =====
-- Verification of the thread message queue and of the shared library around it (main.cc,
-- common/).
--
-- The program lets threads post messages to each other. AndroidThreadMessageQueue
-- (common/message_queue_android.cc) keeps one ThreadSpecificQueue for each thread; a sender
-- appends to it and signals its Event (common/event.cc, over common/mutex_posix.cc); the owner
-- waits for the event, takes all messages and dispatches them to the handlers registered in
-- ThreadMessageQueue (common/message_queue.cc). When a thread ends, ThreadLocals
-- (common/thread_locals.cc) calls a hook that destroys its queue. CircularBuffer
-- (common/circular_buffer.h) is the byte queue of the inter-process message queue.
--
-- CircularBuffer.antt models common/circular_buffer.h function by function; Window reads the
-- block as a circle, Valid is the invariant, WriteRound, Write and Read are the loops, Fifo is
-- the refinement.
--
-- ThreadLocals.antt models the POSIX variant of common/thread_locals.cc; Slots is about Alloc,
-- Values about get after set, Destruction about the destructor calls over the life of a thread.
--
-- Event.antt models Event and the primitives of common/mutex_posix.cc as a step relation over
-- threads; Exclusion has the invariants, Signals the progress of a wait, Deadline the end of a
-- timed wait.
--
-- ThreadQueue.antt models ThreadSpecificQueue; Traffic is the interleaving of its critical
-- sections, taken as atomic; Delivery, Wakeup and Drain are about messages on their way.
--
-- MessageQueue.antt models AndroidThreadMessageQueue and the handler table as functions on the
-- state of the process; Loops adds the dispatching of AndroidMessageLoop with handlers as a
-- parameter; Sending, Thread, Exit, Init and Lifetime are about sends and the lifetime of queues,
-- Looping about Start.
--
-- Threads.antt models Thread of common/thread.cc as steps of parent and child over the thread
-- message queue; Facts is about what they know of each other, Starting about Start and Join.
--
-- Registry.antt models IpcProcessRegistry of common/ipc_message_queue_win32.cc, the processes
-- that take part in inter-process messages; Cells reads its array as a list, Changes, Remove and
-- Add are about its operations, Repair about the death of a process inside Remove.
--
-- Packets.antt models OutboundQueue and InboundQueue of the same file, which cut messages into
-- packets for a block of shared memory and put them together again, for one writer and one
-- reader; OneMessage and Writing are about what the reader will see of the packets written,
-- Transfer about the whole way.
--
-- IpcQueue.antt models Win32IpcMessageQueue of the same file, over Registry.antt and
-- Packets.antt; OfProcess has its OutboundQueue, Worker is the loop of its worker thread among
-- the calls of other threads, Accounting, Intact and Silence are about the completion callbacks,
-- Phases, Awaited and Assertions about what outbound queues wait for, Handles about timeouts and
-- the number of handles, OneProcess, EachProcess and Broadcast about SendToAll, and Messages,
-- Sending, Growth, Waits and Dying have the lemmas of each operation.
--
-- Observers.antt models the registration of observers in common/message_service.cc; Registration
-- says who observes what afterwards, Tidy, Adding, Removing and Operations are about the maps
-- that hold it, Effects about all operations together.
--
-- Notification.antt models the notifications of the same file, over Observers.antt and
-- MessageQueue.antt; Posting is about NotifyObserversImpl, Calls and Undisturbed about the loop
-- that calls the observers while they come and go.
--
-- Numbers.antt models StringToInt of common/string_utils.cc; Parsing is about its values and its
-- bounds.
--
-- Serialization.antt models Serializer and Deserializer of common/serialization.cc, with the
-- strings and notifications (common/message_service.cc) that are sent between processes by them;
-- Bytes is about the bytes of numbers, Writing about what is appended, RoundTrip about reading
-- it, Termination and Faults about bytes that were not written so.
--
-- Search.antt models memmatch of common/string_utils.cc, over a memory in which haystack and
-- needle may overlap; Positions and Naive are about the search of every position.
--
-- Timers.antt models TimedCall and the set of timers of a thread of common/timed_call.cc; Order
-- and Kept are about the set, Upkeep about its state after any operations, Follows and Firing
-- about a pass of the callback, Destroyed about timers destroyed in a pass.
--
-- ByteStore.antt models common/byte_store.cc over common/memory_buffer.cc, bytes that are kept in
-- memory and move to a temporary file when they are many; Contents is about adding, Operations
-- and Finalized about each operation, Refinement about all of them against a sequence of bytes,
-- Capacity about the allocation of the buffer.
--
-- Escape.antt models EscapeUrl and UnescapeURL of common/url_utils.cc; RoundTrip is about the one
-- behind the other.
--
-- Origins.antt models SecurityOrigin of common/security_model.cc; Hosts and Domains are about
-- subdomains, Authorized about the list of authorised URLs.
--
-- AtomicList.antt models the list of common/atomic_list.h as steps of threads; Invariant is about
-- the values in it, Progress about the end of put.
--
-- Bounds and fuel: size_t is a number modulo 2^64 (Prelude.Size) and int is 32 bits wide
-- (Prelude.Int). The loops of read and write have two rounds, as their assertions say, and a
-- third is an error. The rounds of the dispatch loop take fuel, since a handler can keep it going
-- for ever: one round is for a queue with an exit message, two for handlers that leave the queue
-- of their thread alone. The doubling of a buffer's capacity takes the number of bytes asked for
-- as its fuel. The loop of memmatch takes fuel for every start of the needle. Reading a
-- serialized object takes fuel for the objects nested in it, and each is in memory that is at
-- least eight bytes shorter.
--
-- Not modelled: elapsed time (a timed wait may time out whenever it is blocked), the owner checks
-- of debug builds, the variants of Windows and NSPR, the scripting bridges, the database, the
-- direct and asynchronous transfers of ByteStore, and the parts of common/ that the test program
-- does not build, among them the start of the inter-process queue. Message data, handlers and
-- destructor callbacks are parameters: what they do is the program's own.
pub mod Prelude
pub mod CircularBuffer
pub mod ThreadLocals
pub mod Event
pub mod ThreadQueue
pub mod MessageQueue
pub mod Registry
pub mod Packets
pub mod IpcQueue
pub mod Observers
pub mod Notification
pub mod Numbers
pub mod Serialization
pub mod Search
pub mod Timers
pub mod Threads
pub mod ByteStore
pub mod Escape
pub mod Origins
pub mod AtomicList
