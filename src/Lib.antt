-- ===== src/Lib.antt =====
-- A library for the repository wiring, which sends Rust values over byte streams. A type is
-- written by its implementation of Wiring and read by its implementation of Unwiring, each with
-- an asynchronous method for a stream and a synchronous one for memory; the synchronous side
-- has fast paths that skip bounds checks. The development models that core: the bytes that are
-- written, that they are read back, and when the unchecked paths stay inside their memory.
--
-- Which file is about which part:
--   Bytes: to_be_bytes and from_be_bytes of the integers.
--   Wire, Wire/Laws: the synchronous methods of Wire for Vec<u8> and for Unchecked over it
--     (wiring/src/core/wire.rs). VecWire has the bytes, the capacity that has been asked for
--     and what is allocated beyond it; Target says which of the two is written to. A copy
--     beyond what is allocated is the outcome undefined.
--   Format: the wire format, independent of the code.
--   Encode: the trait Wiring as a record (wiring/src/core/wire.rs), with the provided methods;
--     Encode/Numbers and Encode/Containers are the implementations, named u8_wiring, vec_wiring
--     and so on. Encode/Laws says what it is to meet a format; NumberBytes, ContainerBytes,
--     TupleBytes and ConcatBytes are about the implementations that do, Overruns about one that
--     does not.
--   Decode: the readers &[u8] and UnsafeReader and the trait Unwiring as a record
--     (wiring/src/core/unwire.rs); Decode/Numbers and Decode/Containers are the
--     implementations, named u8_unwiring and so on, Decode/Async their asynchronous methods.
--     Laws and ReadBack are about reading a format back, AsyncReads and AsyncContainers compare
--     the two kinds of reading, Truncated is about texts that end early.
--   Safety: BufUnWire::unwire, which measures a value with bytes_length and then reads it
--     unchecked. Safety/Numbers, Containers and Tuples are about types for which that is safe,
--     Overruns about others.
--   Listener: the task of WireListener::run (wiring/src/core/listener.rs) as a function of the
--     state and one event; Chances are the random numbers and the outcomes that the event
--     meets. Where no drawn id is free the loop goes on and there is no result. Listener/Table
--     is about the table, Watch about the tasks that drop entries, Forward about wires that go
--     to another wire.
--   Connect: ConnectInfo and WireInfo, which go over a stream when a wire is set up
--     (wiring/src/core/listener.rs, wiring/src/core/wire.rs). Connect/Codec has their format.
--   Handshake: how a wire is set up (wiring/src/core/wire.rs, wiring/src/core/unwire.rs,
--     wiring/src/core/mod.rs): connect of a client and where a listener runs, what the end that
--     is called reads, and the streams of a wire. Handshake/Talk has the state that a call runs
--     on, with what arrives, what is written and the listener of its end, which handles the
--     event of the call next. Hello is about the bytes, Reads about one end, Established and
--     Refused about both.
--   Config, Handshake/Configs: ConnectConfig and SplitStream (wiring/src/core/mod.rs), with
--     TcpStreamConfig and BufStreamConfig; a Handshake over them takes opens of the
--     configuration for the outcome of connecting.
--   Wired: the server that runs many streams over one wire (wiring/src/core/wired.rs). A Node
--     is the state of one end; wired_step is an event of Wired::run, helper_step one of
--     Unwired::helper_task, receive one of Unwired::run. Wired/Streams are the tables of
--     streams, Wired/Channels the unbounded channels, by number, Wired/Halves the two halves of
--     a stream and connect at both ends, Wired/Events the codec of WiringEvent. Wired/Internal
--     puts the two halves together, Wired/Server is WiredServer and its handle; what is done to
--     the join handles is a list of acts. Wired/Handlers are the implementations of
--     HandleEvent. Delivery, Sent, Opened, Closing, Drops, Ids, Reading, Ending and Shutdown
--     are about what the tasks do together; Ids has the interleavings of all of them as a
--     relation, Ending the rounds of Wired::run with what is sent between them.
--   Derive: the macros (wiring-derive/src/lib.rs). expand is the loop over the fields of a
--     structure, which gives the calls of the generated bodies; sync_calls, async_calls and
--     concat_fields are what these do. A field is the Wiring of its type taken at the field,
--     and a panic of the macro is panic. Derive/Enum has the tags and the arms for
--     enumerations. Derive/Reading is the derived Unwiring of structures. Keeps, Lost, Struct,
--     Plain, Reading/Measure, Enum/Tags, Enum/Sync and Enum/Measure have the proofs.
--   Channels: ends of channels that are sent over wires (wiring/src/core/wire.rs,
--     wiring/src/core/unwire.rs). Channels/Ends has the calls, by the names of their types;
--     each is the task that it starts, which copies items with write_items or read_items.
--     read_items runs on fuel, a round for every byte of the stream and one more, and Crossing
--     shows that this is enough. Channels/Pairs is WireChannel, both directions over one
--     stream, Channels/Refusals what the ends do when they are not sent away themselves.
--   RoundTrip: BufWire and reading back. Examples: concrete inputs. Base: shared names, the
--     type Result of outcomes, and lemmas on lists.
-- Choices. Result has ok, err with the kind of the error, panic, and undefined for undefined
-- behaviour. A u64 keeps its wrap-around, % 2 ^ 64; usize has 64 bits. Signed integers and
-- floats are their bit patterns. A Vec allocates the capacity it is asked for and any spare
-- beyond it, a function in VecWire that is not fixed; an allocation of more than isize::MAX
-- bytes panics, one below succeeds. The macro is built as in a release build, in which a usize
-- wraps. size_of of a type is a field of the record, since the layout is the compiler's. The
-- test for UTF-8, the parser of Url, and the insertion and allocation of hash tables and trees
-- are parameters. Text is the list of its bytes. An asynchronous writer is the list of its
-- writes, an asynchronous reader a function on the bytes that arrive until the end of the
-- stream. The loops but read_items are structural recursion on a list or a count.
--
-- Not modelled: the forwarding of polls to sockets and buffers (wiring/src/core/mod.rs),
-- std::io::Cursor as a wire, the constant SAFE, the bounds that the derives put on type
-- parameters, and the variants for the feature generic_const_exprs.
pub mod Base
pub mod Bytes
pub mod Wire
pub mod Format
pub mod Encode
pub mod Decode
pub mod Safety
pub mod RoundTrip
pub mod Channels
pub mod Config
pub mod Connect
pub mod Derive
pub mod Handshake
pub mod Listener
pub mod Wired
pub mod Examples
