-- ===== src/Lib.antt =====
-- rct is a C++ library of containers, strings, paths, threads, an event loop and message-based
-- connections. This development models its parts in antt and proves what they promise. Paths are
-- from the root of the repository.
--
-- The parts and the files
--
-- Bytes are numbers, a string or a block of memory is a list of bytes, and a `size_t` is a number
-- below 2^64 whose wrap-around is written out (Prelude/Words). Prelude passes on the names of the
-- libraries that all modules share, with lists over the native numbers (Prelude/Lists) and Boolean
-- tests (Prelude/Tests).
--
-- - Buffers: the class `Buffers` of rct/Buffer.h, the queue of received blocks. `Buffers` holds
--   `mBuffers` and `mBufferOffset`; `push`, `size` and `read` are the methods. Buffers/Read relates
--   them to the bytes that the queue holds.
-- - Buffer: the class `Buffer` of rct/Buffer.h, one block of bytes; Buffer/Keeps has what its
--   operations keep. What new memory holds is the parameter `junk`, here and in StackBuffer.
-- - StackBuffer: rct/StackBuffer.h; an access outside of its memory is `none`.
-- - Serializer: rct/Serializer.h. `read_native`, `read_string`, `read_list` and `read_pair` are the
--   operators `>>`, the names with `write_` the operators `<<`. A `Codec` stands for the overloads
--   of an element's type. Serializer/RoundTrip has the round trips.
-- - Message: rct/Message.h, rct/Message.cpp, rct/ResponseMessage.h, rct/FinishMessage.h and
--   rct/QuitMessage.h. `prepare` fills the cache of a message, `create` decodes one. zlib, with
--   `String::compress` and `String::uncompress` of rct/String.cpp that only call it, and the
--   messages that the program registers are the fields of `Env`.
-- - Connection: rct/Connection.h and rct/Connection.cpp. `on_data_available` cuts the stream of
--   received bytes into frames, decodes them and fires the signals; Connection/Send has `send` and
--   `on_data_written` over a socket that is the interface `Client`. Connection/Sent has the stream
--   that a peer of built-in messages sends.
-- - ReadWriteLock: rct/ReadWriteLock.cpp. `Move` has the steps of one thread in `lock`, `tryLock`
--   and `unlock`, `Step` those of all threads; the mutex makes a method one step up to its wait in
--   the condition variable. `Reach` has the states that threads reach which unlock only what they
--   hold.
-- - ThreadPool: rct/ThreadPool.h and rct/ThreadPool.cpp. `start`, `remove` and `clear_backlog` are
--   the methods, `turn` and `finish` the two sections of `ThreadPoolThread::run` that hold a mutex,
--   and `Step` is any of them, or the end of a thread that `start` gave a job of its own. The
--   program starts a job only while it waits and runs nowhere, since `start` changes the priority of
--   a job in place; a job that has finished may be started again. `std::sort` is a parameter that
--   sorts (`Sorts`); the insertion sort of Prelude/Sorting is one.
-- - String: rct/String.h, `indexOf` and `lastIndexOf` of a byte, `mid`, `left`, `right`, `split`,
--   `join`, `trimmed` and `chomp`. String/Search has the searches without respect to case and of a
--   text, and `replace`, String/Case upper and lower case. String/Split, String/Trim and
--   String/Replace have the descriptions of `split`, `trimmed` and `replace`.
-- - Path: rct/Path.cpp, `parentDir`, `fileName`, `name`, `extension` and `canonicalize`.
-- - EmbeddedLinkedList: rct/EmbeddedLinkedList.h. `Chain` has the links of all nodes and the fields
--   of one list; EmbeddedLinkedList/Spec has the operations on the list that a chain stands for
--   (`Repr` in EmbeddedLinkedList/Linked).
-- - EventLoop: the timers of rct/EventLoop.h and rct/EventLoop.cpp. `register_timer`, `clear_timer`
--   and `send_timers` are the methods; the clock is an argument, and what callbacks do to the timers
--   is the parameter `react`. The search for a new id has one step more than there are timers, and
--   a round likewise.
--   EventLoop/Posted has the queue of events, `post`, `quit` and `sendPostedEvents`, whose loop has
--   one step more than the weights of the events make.
-- - Signal: rct/SignalSlot.h, `connect`, `disconnect` and the call of a signal, whose Async slots
--   are posted each to the event loop, a number, of the thread that connected it. What a slot does
--   is the parameter `run`, what it leaves of arguments that it may take is `left`.
-- - Lists: what the class List of rct/List.h adds to a `std::vector`; Lists/Remove and Lists/Compare
--   have the loop of `remove` and the order of lists.
-- - Set: rct/Set.h over the ascending elements of a `std::set`, for any strict total order of them
--   (`Order`). Set/Algebra has what the operations on two sets promise, Set/Compare the comparisons.
-- - SocketClient: `write` of rct/SocketClient.cpp with the buffer of what is still to be written.
--   Each call of the system takes the next of a list of outcomes; as many as there are bytes are
--   enough, since every one that succeeds takes a byte at least.
-- - Tokenizer: rct/StringTokenizer.h, how completions are matched and ordered. A `Match` is a result
--   of either class; `std::sort` is a parameter that sorts by every strict weak order (`Sorts` in
--   Prelude/Sorting, with a sort that does).
-- - Escape: `jsonEscape` of rct/Rct.h, with a reader of JSON strings (Escape/Reader)
--   and what is lost (Escape/Lost).
-- - Value: rct/Value.h and rct/Value.cpp. `Value` has the ten types; Value/Access has what is in
--   lists and maps, Value/Convert the conversions with `strtol` and its like (Value/Numbers),
--   Value/Wire the serializer's operators, Value/Json the trees of cJSON and Value/Formats the two
--   formatters. cJSON, the arithmetic of `double` and the local time are the fields of `Env`. A
--   reader takes one step more than its value is deep.
--
-- Bounds and fuel
--
-- `Connection.loop`, `String.split_loop`, `Path.canonicalize_loop` and `String.Search.replace_loop`
-- recurse on fuel. The first
-- one takes four bytes and more each round and has one more than the buffered bytes; the second one
-- goes beyond a byte each round and has one more than the bytes; in the third one the distance of
-- the index from the end falls by one each round, or the loop ends, and it has one more than the
-- bytes; in the fourth one what is left of the string shrinks by the text in each round, and it has
-- one more than the bytes. A failed assertion, an exception and a read outside of the data are values (`none`,
-- `bad_read`, `assertion_failed`). Where the code keeps a length or an index in
-- an `int`, the model cuts it to 32 bits or is of data shorter than 2^31 bytes: a deserializer fails
-- on more (`Serializer.read_bytes`), a serializer asserts that a chunk has 1 to 2^31 - 1 bytes
-- (`Connection.Send.takes`), and `Path.int_places`, `Path.file_index` and
-- `String.Search.last_index_of_any_case` have the tests on the sign.
--
-- What is not modelled
--
-- Calls of the system and of zlib, OpenSSL and cJSON; the texts of errors and the log; the time-outs
-- of connections; the shrinking of a thread pool; the search of a text that ignores case; polling
-- and `exec` of an event loop; the addresses of sockets, connecting and reading. The other classes
-- of the library (maps, flags, dates, processes, options) have no model here.
pub mod Prelude
pub mod Buffers
pub mod Serializer
pub mod Message
pub mod Connection
pub mod ReadWriteLock
pub mod ThreadPool
pub mod String
pub mod Path
pub mod EmbeddedLinkedList
pub mod Tokenizer
pub mod Signal
pub mod Set
pub mod Buffer
pub mod StackBuffer
pub mod Lists
pub mod SocketClient
pub mod Escape
pub mod Value
pub mod EventLoop
