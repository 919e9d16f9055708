-- ===== src/Lib.antt =====
-- go-python: a Go package that runs CPython, compiled to WebAssembly, inside the Go process, and
-- lets Go and Python code exchange values, call each other's functions and share objects.
--
-- A Go value goes to the guest as a node of a small binary format (wire.go). Values such as str or
-- int cross by value, other objects by a handle that pins the guest's object (object.go). An
-- operation on an object encodes its operands, wraps them in a protobuf message
-- (internal/python.go), and sends it with the number of the export through valueOp
-- (internal/instance.go), which refuses a closed instance, releases what finalizers have queued,
-- arms the cancellation watchdog around the call and takes the response's envelope out of the
-- message; the envelope is decoded into a value, an exception or an exit. In the other direction
-- the guest calls a Go function by its id with an encoded request, and the handler of bridge.go
-- answers in the same format.
--
-- The files, and the code each of them models:
--   Value, Value/Kind, Value/Convert: value.go and the handle types of object.go. A Go interface
--     that may be nil has a constructor for nil, a string is its bytes, a float64 is its bit
--     pattern. IntValue keeps the two fields of the source.
--   Wire/Tags, Wire/LittleEndian, Wire/Magnitude, Wire/Encode, Wire/Reader, Wire/Decode,
--     Wire/Envelope: wire.go, a definition for each function. Wire/Node describes the format apart
--     from the encoder, Wire/Reads, Wire/Payloads and Wire/Integers what a read does on a buffer
--     that holds what it expects, and Wire/RoundTrip, Wire/Lists, Wire/Raised, Wire/Bounds,
--     Wire/Decoded and Wire/Truncated prove.
--   Internal/Proto, Internal/Proto/Scalars, Internal/Proto/Handles: the appenders and the reader
--     of internal/python.go, for numbers and bytes, for the other scalar types, and for
--     submessages and handles. Internal/Proto/Varint, Internal/Proto/Message,
--     Internal/Proto/Lengths and Internal/Proto/Scanned are about varints, fields and the loop
--     over a message; Internal/Proto/Chunks, Internal/Proto/Typed with Internal/Proto/ReadScalar,
--     and Internal/Proto/Pointers about what that loop finds, and Internal/Transport about an
--     envelope's way.
--   Internal/Instance, Internal/MethodIds, Internal/Ops: internal/instance.go and
--     internal/dispatch.go. The record Python has the fields of the struct that the operations
--     change; an operation is a function from the world, which is that record with the guest's
--     state, to its results and the next world. Internal/Interrupt, Internal/Closing and
--     Internal/Release prove; the latter two have the interleavings of operations, finalizers and
--     Close as step relations, and Internal/Drain has what ties these steps to the operations;
--     Internal/Answered is about an operation that the guest answers. Internal/Release/Sent is
--     about the releases that reach the guest.
--   Internal/Sandbox, Internal/Start, with Internal/Start/Ready and Internal/Start/Hosted:
--     buildWASI, and boot and New of internal/instance.go. The runtime's host and module are
--     interfaces.
--   Internal/Module, with Internal/Module/Transported and Internal/Module/Called: invoke,
--     resolveTypeName and the callback registry of internal/python.go, over the allocator and the
--     memory of the module. Internal/Module/Memory, with Internal/Module/Memory/Requests,
--     Internal/Module/Memory/Simulated and Internal/Module/Memory/Traces: the instance over that
--     transport, with the interrupt words in the same memory. Internal/Module/Imports: envStubs,
--     wasmifyStubs, resolveAbstractHandle and decodeAbstractAs. Internal/Module/Lock: the module's
--     lock m.mu, which invoke holds and handleCallback lets go of around a handler, as a step
--     relation of goroutines.
--   Internal/Global: Init, InitWith, module and Instance of internal/python.go, the process-wide
--     module.
--   Internal/Exports, with Internal/Exports/Constructors, Internal/Exports/Agree and
--     Internal/Exports/Table: the 35 generated wrappers of internal/python.go, against the
--     operations that internal/instance.go writes by hand and its table of method ids.
--   Object, Object/Items, Object/Arguments, Object/Guards, Object/Foreign, Object/Views,
--     Object/Called: the methods of object.go, in the source's order of checks.
--   Errors: the texts of errors and what errors.As finds, for bridge.go, exit.go and cli/cli.go.
--   Bridge, Bridge/Callback, Bridge/Table, Bridge/Called: bridge.go, the last with the callbacks
--     of the transport. A GoFunc is a function to what it returns or the value it panics with; an
--     error of it in which errors.As finds a nil *PythonError is a third outcome, on which the
--     callback panics. The ids of functions and of callbacks are int32s that wrap around.
--   Session, Session/Typed, Session/Bound, Session/Evaluated, Session/InMemory, Session/Closed:
--     python.go, with NewFunction and Bind of bridge.go and runCommand of cli/cli.go, as sequences
--     of operations on one world.
--   Fs/Path, Fs/Clean, Fs/Inside, Fs/Host, Fs/Below: Clean, Join and Dir of path/filepath on Unix,
--     the segments of cleaned paths, the guard of extractStdlibTo and the host's file system of
--     fs/fs.go.
--   Fs/Stdlib, with Fs/Stdlib/Extracted and Fs/Stdlib/Loaded: fs/stdlib.go. The archive is given
--     as it is read, and the in-memory file system and the host's files are interfaces.
--   Launch, Launch/Sandboxed: Config of config.go and New of python.go.
--   Cli, Cli/Parse, Cli/Status: the arguments and the exit status of cli/cli.go. Cli/Run and
--     Cli/Run/Closed: HostConfig and Run, from the arguments to the report, the process's caches
--     and the instance as it is left, and main of cmd/python/main.go.
--   Tests: the theorems at concrete inputs. Prelude: the names, tests and list lemmas that all
--     share.
--
-- The wasm module is a parameter, the record Guest: a call takes the guest's state, the number of
-- the export, the request and the watchdog's store, and gives a response, the next state and the
-- two words in memory that the watchdog writes. Nothing is assumed of it. A context is what one
-- call sees of it: whether it can be canceled, its error at the entry, whether it fires during the
-- call, and its error afterwards. Entries into the guest are one at a time, as the module's lock
-- makes them.
--
-- Fuel: the varint encoder and pbVarintLen take nine rounds, and the encoder a last byte: a uint64
-- has no more. A scan over a message takes as many rounds as the message has bytes: every round
-- begins at another position, unless the loop has no end, which then is its outcome. All other
-- loops are structural. Lengths and counts keep the source's cut to 32 bits, so the round trips
-- state the bound.
--
-- The library's New makes the options of an instance from a Config, on a file system of its own if
-- it is given none, and the instance's New boots the module on a host that these options open; the
-- command extracts the standard library to the host first, and closes the instance when the
-- program ends. The transport below the record Guest is the one of Internal/Module: a request is
-- copied into a block of the module's memory, and the response out of another;
-- Internal/Module/Memory makes a Guest of it.
--
-- Interfaces: Wasi and Runtime for the wasm runtime, Wasm for its memory, Exports for what the
-- module exports over it (IsBacked says that these exports behave like a Guest that the memory
-- holds), MemFs for the runtime's in-memory file system, Os and Host for the host. Where a theorem
-- needs more of them than their types, it has the laws as a hypothesis: that a setter replaces its
-- one setting, that what is stored is loaded and a freed block is no longer live, that a file that
-- is written is read back, that the allocator has room for requests below a limit while the memory
-- holds the guest's state, that a module keeps the host that it was made with.
--
-- Not modelled: the capacity of pbNewBuf's buffer; the tables of cppTypeNames and cppTypeFactories
-- beyond what they are in the source, which is empty; what the guest does to the host's files
-- while it runs; the Go locks but for m.mu, since each operation that they guard is one step; the
-- memory that a count in a response or a request makes the decoder reserve.
pub mod Prelude
pub mod Value
pub mod Wire
pub mod Internal
pub mod Object
pub mod Errors
pub mod Bridge
pub mod Session
pub mod Cli
pub mod Fs
pub mod Launch
pub mod Tests
