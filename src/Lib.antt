-- ===== src/Lib.antt =====
-- A model of the HTTP/2 library and its HPACK package, and the properties that make its parts correct.
--
-- The program. A connection (conn.go) reads frames with a `frameReader` (read.go) and writes them with
-- a `frameWriter` (write.go). HEADERS and PUSH_PROMISE frames carry header blocks, which the HPACK
-- package (hpack/) encodes and decodes with a table that both ends keep. SETTINGS frames set the
-- parameters of util.go. Every stream has a state (stream.go), and two flow controllers
-- (flow_control.go): the window that this side grants, from which frames received are charged and
-- which WINDOW_UPDATE frames refill, and the window that the peer grants, from which a writer takes
-- what it may send.
--
-- The files, with the code each is about.
--   Prelude, Prelude/*: Boolean tests, lists and integers over the native numbers, bit operations as
--     arithmetic, results. No code of the program.
--   Hpack/Static, Hpack/Table: hpack/table.go. `HeaderTable` is `headerTable`, its entries the oldest
--     first as in `data`; `add`, `set_max_size`, `entry`, `index` (the static search), `table_index`
--     (the method `index`) and `find` are the functions of these names. Sizes are uint32, written out
--     modulo 2 ^ 32. `none` is a panic. Hpack/Table/Eviction, Search and Find hold the proofs.
--   Hpack/Codes, Hpack/Tree, Hpack/Huffman: hpack/huffman.go. `root_children` is `rootHufmanNode`, the
--     256 children of a node a function of the index; Hpack/Huffman/Decode is `HuffmanDecode`, where
--     `none` is a panic or a loop without a round left. Hpack/Huffman/Length, Content, Put and Front
--     are about the encoder, Walk, Machine, Finish and Symbols about the decoder, RoundTrip about both.
--   Hpack/Literal, Hpack/Encoder: string literals, the literals of fields and `Encoder` of
--     hpack/hpack.go. Hpack/Literal/RoundTrip, Field, Extended and Input hold the proofs.
--   Hpack/Decoder, Hpack/Decode: `Decoder`, `decoderState.decode` and `Decoder.Decode` of hpack/hpack.go.
--     `state.data` is passed on as an argument, `dec.b` is the field `b`. Hpack/Outcome is a call that
--     panics, fails or gives a value. Hpack/Decode/Dispatch, After, Input, State, Parts, Loop and
--     Fragments hold the proofs. Hpack/Sync, Sync/Fields and Sync/Blocks are about an encoder and a decoder together.
--   Hpack/Integer: `encInteger` and `decInteger` of hpack/hpack.go, with uint64 written out modulo
--     2 ^ 64. Hpack/Integer/RoundTrip and Input hold the proofs.
--   Frame/Types, Frame/Frames: the types and constants of http2.go, and the methods of frames in util.go.
--     A payload that is read from a connection or written to one is the list of its bytes, and `none`
--     for a nil reader.
--   Settings: `Settings` of http2.go, `Value` and `SetValue` of util.go; Settings/Laws holds the proofs.
--   Headers: `Header.add`, `Len` and `validHeaderKey` of util.go, on a map as an association list;
--     `panics` is the index of an empty key. Headers/Laws holds the proofs. Headers/Keys:
--     `CanonicalHTTP2HeaderKey` and the table `commonHeader`; Headers/Canonical holds the proofs.
--   Error: the errors of http2.go, without their texts.
--   Stream/State: `StreamState.transition` of stream.go; Stream/Mirror and Stream/Progress hold the
--     proofs about two ends and about sequences of frames.
--   Stream/Swap: `compareAndSwapState` and `transition` of stream.go, on a stream and what these change
--     of its connection: the counters `numStreams`, the map of streams by its keys, the window of the
--     connection and the queue of frames. Stream/Count and Stream/Active hold the proofs.
--   Conn/State: `connState` of conn.go, `idleStream` and `validStreamID`; Conn/Ids holds the proofs.
--   Flow/Recv: `flowController` of flow_control.go; Flow/Recv/Threshold, Credit and Both hold the proofs.
--   Flow/Send: `remoteFlowController` and `allocateBytes`; Flow/Send/Credit and Allocate hold the proofs.
--   Wire/Bytes, Wire/Write: the `writeTo` methods of write.go; Wire/Write/Control,
--     Data, Chunks and Split hold the proofs.
--   Wire/Read: the `readFrom` methods of read.go; Wire/Read/RoundTrip, Settings, Data, Framing and Cut hold
--     the proofs.
--   Wire/Block: the `writeTo` methods of HEADERS and PUSH_PROMISE frames of write.go, which share the
--     loops over the header map; `hpackBuf` is the field `buf`. Wire/Block/Frames, Drain, Keys, Loop,
--     Whole and Silent hold the proofs.
--   Wire/Fragments: `ReadFrame` of read.go, and the `readFrom` methods of HEADERS and PUSH_PROMISE
--     frames, which read the CONTINUATION frames too. `pending` is `pendingHeaders`, and `last_payload`
--     counts the bytes that `Close` of `lastPayload` discards. Wire/Fragments/Loop, Start, Assembly,
--     Next, Continued, Accepted, Values, RoundTrip, Open, Order and EmptyName hold the
--     proofs.
--   Tests/*: the theorems at concrete inputs.
--
-- State and concurrency. A method is a function of the state it reads and returns the state it leaves;
-- each critical section of a lock is one such function. The channel `winCh` of the send window is an
-- option, as it has room for one number. `allocateBytes` blocks in two `select`s: what each wakes up
-- on is an argument, and `waiting` stands for a channel that stays empty. The input of a reader is the
-- list of the bytes that the connection still gives. Where it ends inside a SETTINGS payload, the
-- source slices into older bytes of the buffer of bufio, which are the argument `stale`. The writer
-- below a `frameWriter` may fail after any number of bytes. `int` is 64 bits wide in the program, and
-- an unbounded integer here: the windows are sums of numbers below 2 ^ 32.
--
-- Termination. `encInteger` recurs on the accessibility of the number; the loop of `DataFrame.writeTo`
-- runs on fuel of one round for each byte of data and of padding, and two more. The inner loop of
-- `HuffmanEncode` has 5 rounds, which a code of at most 30 bits never uses up, and the way of a code
-- down the tree 4. The loops of `HuffmanDecode` have 9 and 8 rounds, as each takes a bit at least of
-- 15 and of 7, and the loop of `Decode` has one for each byte of its input, as each field takes one
-- at least; without a round left they give `none`.
-- The `goto write` loop has two rounds more than the buffer has bytes: a pass that goes on has sent a
-- byte, but for a first frame without room. The loop over a fragment has a round for each byte, as a
-- chunk has one at least, and the `goto again` loop one more than the input has bytes.
--
-- A map is iterated in the order of its list, and `pseudoHeader` in that of the argument `pseudo`, so
-- that a theorem for all of them holds for every order. `strings.ToLower` is the argument `unicode`
-- where a name is not ASCII.
--
-- Not modelled: `Read` of a payload, what a failed call leaves of a reader, the other methods of header
-- maps, and of conn.go the settings of a connection, its write queue and the handlers of `readFrame` and
-- `writeFrame`: they build on what is here. client.go and server.go are network I/O, TLS and calls
-- of net/http. The texts of errors, `String` methods and the logging of values carry no behaviour.
pub mod Prelude
pub mod Hpack
pub mod Frame
pub mod Settings
pub mod Error
pub mod Flow
pub mod Wire
pub mod Stream
pub mod Conn
pub mod Headers
pub mod Tests
