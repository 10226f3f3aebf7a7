-- ===== src/Lib.antt =====
-- Seven parts of the repository: MessageStore, a message service on a console; the tables of mem_db,
-- an in-memory database; task1, a query server and its client; common/nw, a server over epoll;
-- producer-consumer, two processes over a socket; of phone-officer the preloading; and of pocs the
-- watcher of directories. The models share Prelude.antt, and the allocator of mem_db uses the loops
-- of common/shr/macros.h in Nw/Drain.antt.
--
-- MessageStore (MessageStore/): a thread shows a menu, reads requests line by line and serves them.
-- - MessageStore/Device.antt: the interface framework/inc/IODevices.h as a data type of the classes
--   behind it, with the virtual calls as functions by clauses. MessageStore/Device/StdStream.antt:
--   readData, writeData and ignoreTillChar of framework/src/StdStreamIODevice.cpp, with a standard
--   stream as its bytes and `good()`.
-- - MessageStore/Users.antt: client/src/UserManager.cpp, the map from hashes of names to boxes of
--   messages. The iterator of findUserBox is an Option, and to go through an end iterator is
--   undefined behaviour. std::hash is a parameter, and nothing is assumed of it: users whose names
--   have one hash share a box, and the theorems speak of boxes by their hash.
-- - MessageStore/Ui.antt: client/src/ClientUiTask.cpp. The state is the device, the database and
--   m_keepRunning; a handler takes the state and returns it or a fault. Its texts are in
--   MessageStore/Ui/Prompts.antt.
-- The console task is the only user of the database and of the device. All runs on one thread:
-- main only starts it and waits, so that there are no interleavings.
-- A byte is a number below 256; none of the functions depends on the bound.
--
-- mem_db (mem_db/): a table is a chunk of shared memory with a stack of free slots, a bit map of
-- those taken, the columns and the rows.
-- - MemDb/Stack.antt and MemDb/BitMap.antt: Stack and BitMap of mem_db/common/inc/data_structs.h.
--   Words are 32 bits wide. What `1 << k` is for k of 32 and more, which the code reaches, is the
--   parameter `over`.
-- - MemDb/Layouts/Header.antt: LayoutHeader and Comparable of mem_db/server/layouts/inc/layouts.h;
--   a name is the bytes in use of its buffer, and a pointer to a definition is an Option.
-- - MemDb/Layouts/ArrayLayout.antt: ArrayLayout of the same file, over memcpy and memcmp of
--   MemDb/Layouts/Memory.antt. The memory that the allocator gives is an argument of the
--   constructor, with any contents. The bytes of a value are those of a little-endian machine.
-- - MemDb/Flow.antt: of mem_db/server/flow/src/flow_manager.cpp how handle_select finds a table
--   and reads names and values from a network message. MemDb/Flow/Select.antt: the whole of it, with
--   findEntry called as layouts.h has it. MemDb/Flow/Create.antt: how handle_create reads the columns
--   of a new table, MemDb/Flow/Registry.antt: handle_create as a whole, with the registry of tables.
--   MemDb/Flow/Insert.antt: handle_insert. MemDb/Flow/Server.antt: run, over the messages that were
--   received, with what the memory holds that each is served in. What is printed is not modelled.
-- - MemDb/ShmControl.antt: the tool utils/src/shm_control.cpp, over the calls of System V shared
--   memory in MemDb/ShmControl/Kernel.antt; HasSegments says what these promise. A macro that no file
--   defines, __SYS_CALL_TEST_RETURN, is taken to return -1 where a call fails.
-- - MemDb/Allocator.antt: the constructor, allocChunk, pointerToLocalPointer and disposeChunk of
--   common/src/shm_handler.cpp, over the system calls. A chunk's header is meant to be the memory at
--   its address, where the file does not compile. It stands by itself: the tables are given their
--   chunks as arguments.
-- - MemDb/UnitTests.antt: the tests of mem_db/ut/src/data_struct_tests.cpp as functions on their
--   fixture. MemDb/UnitTests/LayoutTests.antt: those of mem_db/ut/src/layouts_tests.cpp, as functions
--   of what the memory holds; the sizes that the allocator reports of a chunk are an argument.
--
-- task1 (task1/): the client sends a query in a package, and the server sends the rows of the result
-- in bulks, a package each, of which all but the last have MSG_CONT.
-- - Task1/Link.antt: what is used of inc/PracticalSocket.h, a library's copy: recv, send and the two
--   conversions, as a parameter. IsReliable says of it what TCP promises where nothing fails; the
--   bytes come in pieces of any size.
-- - Task1/Respond.antt: the messages as the fields that the code sets. Their classes are generated,
--   and how one is written as bytes is a parameter; of a message that a theorem speaks of it is
--   assumed that it is read back, and that its size fits the header.
-- - Task1/Package.antt: the header and the loops that read and write a package, which
--   src/DataStreamManager.cpp, src/SocketServer.cpp and src/SocketClient.cpp have alike.
--   Task1/OutStream.antt and Task1/InStream.antt: handleProtoBuffSend and handleProtoBuffRecv of
--   src/DataStreamManager.cpp. Task1/Server.antt: executeTask and translateColumnType of
--   src/SocketServer.cpp. Task1/Client.antt: sendQuery and consume of src/SocketClient.cpp.
--   Task1/Exchange.antt composes the two sides.
-- The code of task1 does not compile. Where it does not, it is modelled as it is meant: the flags of
-- a bulk are MSG_CONT | PROTOCOL_PROTOBUF, the condition of the loop that reads looks at the header
-- that was read, and the client calls the function that its manager has. The database is a
-- parameter, a function from the query to its result.
--
-- common/nw (common/nw/):
-- - Nw/Kernel.antt: the system calls, on a state of the system, as a parameter; IsReliable says that
--   reads and writes do not fail, and take pieces of any size. Nw/Drain.antt: the loops of
--   common/shr/macros.h, apart for a pointer to char and for one to an object, which steps by whole
--   objects. Nw/Message.antt: the layout of nw_message of inc/nw_message.h in memory, on
--   a 64-bit machine and in the build for the tests. Nw/Acceptor.antt: listen_2_events and
--   handle_request of src/Acceptor.cpp. The log's descriptor, which that build writes to and no
--   class declares, is a field. Nw/Client.antt: the client of the tests, common/ut/inc/nwUT.h and
--   common/ut/src/nwUT.cpp, on the system calls of its own process, with init of a message and
--   BufferSz of common/shr/types.h. What of it does not compile is modelled as it is meant.
--
-- producer-consumer (producer-consumer/): Producer.antt has the two loops, of producer_task.cpp and
-- consumer_task.cpp, as a relation between states of the whole system, a step for each system call.
-- The two processes take their steps in any order. The index is an int: what follows the greatest
-- one is a parameter, and the theorems are about the runs before it.
--
-- phone-officer (phone-officer/): PhoneOfficer/Preload.antt models
-- officer-common/src/preload_utils.c. An entry of the environment is its bytes with the null byte
-- at the end, and the functions of the C library that are looked up are parameters.
-- PhoneOfficer/Agent.antt: open of agent/src/agent_interception_points.c, which uses the look-up,
-- with the call that it makes.
--
-- pocs (pocs/inotify/): Inotify.antt models the loop of inotify_test.cpp over the events that the
-- kernel puts into its buffer, with what is printed of each; its calls are parameters. The loop over
-- a batch is given one round more than there are bytes, which is enough for events of one length.
--
-- An `assert` that fails, an exception, and undefined behaviour end a call with a fault; indices out
-- of range are undefined behaviour.
--
-- Bounds and fuel: the loops run on the number of rounds that their bound gives. The loop of the
-- console runs on fuel, for which two more than the bytes left to read are enough; those over a
-- message's parameters run on fuel too, for which one more than the bytes of the parameters is
-- enough. In task1 the fuel of a loop over a package is its size and that of the loop over bulks
-- the number of rows, which suffice; the loop that reads bulks has as much as its theorems ask
-- for, and so has the loop that waits for events, which the code does not bound. Lengths are
-- numbers without a bound where the program has none of its own.
--
-- Not modelled: the start and the join of threads; printf; the free list of the allocator, of which
-- there is the start of one function; the counter dbSz and destroy of a layout; Listen of task1 and
-- the constructors that set up sockets; reads and writes of producer-consumer that fail or are
-- short; what the flow manager prints, and its network interface, which is declared only; and the
-- parts of the repository that have no file here.
--
-- Prelude.antt holds names and lemmas that the parts share; the Tests.antt of each part holds
-- concrete runs.
mod Prelude
pub mod MessageStore
pub mod MemDb
pub mod Task1
pub mod Nw
pub mod Producer
pub mod PhoneOfficer
pub mod Inotify
