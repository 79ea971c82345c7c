-- ===== src/Lib.antt =====
-- A model of artdaq_core, the library with which the processes of a data acquisition
-- exchange events, and what holds of it.
--
-- SharedMemory (artdaq-core/Core/SharedMemoryManager.hh and .cc): a segment of shared memory
--   with a table of buffers, which writers fill and readers empty. State holds its data: the
--   segment's header and buffer headers as the structs ShmStruct and ShmBuffer, the bytes
--   behind them as a function from the address, and the fields of the manager that runs the
--   call. A call is a function on this World; it ends with a result, with one of the exceptions
--   that Detach throws, or with the use of a null shm_ptr_.
--   Access has what all operations share: Detach, getBufferInfo_, touchBuffer_, checkBuffer_ and
--   the two compare-exchanges; Reset is ResetBuffer; Writing is GetBufferForWriting; Reading is
--   GetBufferForReading; Counting has ReadReadyCount, WriteReadyCount, ReadyForRead,
--   ReadyForWrite and GetBufferReport; Marks has the operations on the header of one buffer,
--   from BufferDataSize to MarkBufferEmpty; Transfer has Write and Read; Attach has Attach,
--   IsEndOfData and the inline queries, over the answers of the operating system. The modules below each
--   of these hold the proofs, and Isolation what the searches leave to other managers. Samples has
--   the worlds on which Tests and Holding run the operations.
-- QuickVec (artdaq-core/Core/QuickVec.hh): the vector that holds the words of a fragment, with
--   its copying loops. Loops says what these do cell by cell, Contents, Editing and
--   Undo what the operations do to the list of the elements.
-- Header (artdaq-core/Data/detail/RawFragmentHeader.hh, RawFragmentHeaderV0.hh and
--   RawFragmentHeaderV1.hh): the header of a fragment as a record, its bit fields as decode and
--   encode on the words of memory, and the upgrade of older headers. Bits, Types and Latency hold
--   the proofs.
-- Fragment (artdaq-core/Data/Fragment.hh and Fragment.cc): a QuickVec of words with a header, and
--   the upgraded header beside it; an operation is a function on this state that can throw.
--   Construct has the constructors, dataFrag and eodFrag, Queries the accessors, Metadata the
--   metadata of whole words, and Copying the copies, moves and swap. Layout, Resizing, Storing,
--   Building, Delivery and Annotating hold the proofs.
-- RawEvent (artdaq-core/Data/RawEvent.hh and RawEvent.cc): the fragments of an event under a header.
--   Readings says which headers can be read, Separation and Listing what is released and listed
--   by type, and Draining what both together do.
-- Container (artdaq-core/Data/ContainerFragment.hh and ContainerFragmentLoader.hh): a fragment whose
--   data is other fragments with an index behind them, read in Container and written in Loader. Walk
--   says what the index is, Reading and Single what is read by it, Storing what a store changes, Indexing
--   and Closing that an index is made, Adding, Room and Growing what an addition does before that, and
--   Delivery, Passing and Founding what the operations do as a whole; Copying and Several do the same
--   for addFragments.
-- FragmentManager (artdaq-core/Core/SharedMemoryFragmentManager.hh and .cc): WriteFragment and
--   ReadFragment, over the calls of SharedMemory and of Fragment. Sending, Receiving and Delivery
--   say what each does, Passing what both do one after the other, and Endings how ReadFragmentData
--   can end.
-- Prelude: Boolean tests, lists, integers and machine words, their bytes, and arrays as functions.
--
-- Numbers. A size_t or uint64_t keeps its wrap-around modulo 2 ^ 64, an unsigned modulo 2 ^ 32,
-- and what is stored into sem_id is taken into an int16_t. Indices of buffers are natural
-- numbers, since every caller passes what GetBufferForReading or GetBufferForWriting returned.
--
-- Loops. A scan over the buffers recurses on the number of buffers left, and the retries of
-- GetBufferForReading on the five that the source has, so that no fuel is needed. The retry
-- loop of the compare-exchange in Write runs once where no other thread writes last_seen_id_.
--
-- The clock is a sequence of readings, of which each call of gettimeofday_us takes the next, and
-- nothing is assumed of it. A call of the model runs without another process between its steps,
-- so that a theorem says what one call does to the segment as it finds it; the mutexes, which
-- are those of one process, are left out, and so are trace messages, but for the one of
-- ReadFragmentData whose argument calls CheckBuffer: whether it is evaluated is a parameter.
-- The contents of fresh memory in QuickVec are a parameter. Where shmat fails the model of
-- Attach stops, since shm_ptr_ is left at an address that is no segment. WriteFragment has a
-- bound on the rounds of its sleeping loop, after which it waits for another process, and what
-- other processes do during each sleep is a parameter; when Write throws there, the active
-- buffer is not part of the outcome. The metadata of a fragment is that of a C++ type of whole
-- words.
-- In a container an offset that is no multiple of 8 ends a call, since the model has words.
-- Not modelled are signal handlers and the destructor that restores them, printing, the event
-- receiver, and the statistics.
pub mod Prelude
pub mod SharedMemory
pub mod QuickVec
pub mod Header
pub mod Fragment
pub mod RawEvent
pub mod Container
pub mod FragmentManager
