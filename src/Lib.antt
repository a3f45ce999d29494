-- ===== src/Lib.antt =====
-- A model of the web client of whats-going-on, and theorems on it. The client shows the machines of
-- a user: it keeps a workbench of panes and tabs, and talks to a daemon on each machine in messages
-- that are sequences of CBOR values.
--
-- Parts, with their files from the repository's root:
-- - Cbor: web/src/protocol/cbor.ts. Value has the values, the errors and the platform; Encode,
--   Decode and Sequence the functions, under the source's names (`encodeTypeValue` is
--   `encode_type_value`). A reader takes the bytes from `state.offset` on and returns those that
--   are left, so the offset is the difference of two lengths. Canonical, Head, Sorting, Reads,
--   Containers and RoundTrip are about what is written and read back; Follows, Streaming,
--   Incremental and Resume about bytes that come in parts; Profile, Arguments, Ensures and Totality
--   about every input; Sample has a platform for the tests. The profile of the values is protocol/standards/wgo-cbor.md.
-- - Wire: web/src/protocol/wire.ts in Codec, web/src/protocol/generated/wire.ts in Generated and
--   Errors, their types in Message. A message becomes a kind and a map of fields, each encoded by Cbor. Fields
--   and Valued have the values that a message may carry, RoundTrip the theorems on whole messages, Stream the
--   one on the buffer of a stream; Pairs has the whole pairs at the front of a buffer as a relation,
--   Buffer that `decodeReqResMessageSequencePrefix` returns them.
-- - Workbench: web/src/state/workbench.ts. Model and Tabs have the tabs and panes; State, Setters
--   and Moves the operations, each a function from state to state in place of one `store.set`;
--   Scopes the pane's and the tab's view of them; Storage what a copied tab takes along of
--   web/src/state/explorer.ts and web/src/state/file-viewer.ts. Counts, History, Panes and Focus are
--   about single panes; Invariant, Steps, Setting, Opening, Moving, Moved and NewPane about what the
--   operations keep; Reach has the step relation of all operations.
-- - Client: web/src/protocol/client.ts. Rpc has the failures, Calls the functions on the chunks that
--   arrive (`Readable`); a call returns what it wrote beside its result. Chunks is about streams
--   cut into chunks, Unary and Answers about calls, Writes about client streams.
-- - Session: web/src/state/rpc-session.ts, its pings over datagrams. Datagrams has the runtime, the
--   operations with their effects (writes, reports, exceptions) and the step relation of timers, datagrams and
--   failures; Pings, Life and Rtt what holds of it.
-- - Explorer: web/src/state/explorer.ts. Model has the entries and events, Paths the paths, Navigation
--   the locations and the history, Rows the tables and their events, and how a moved directory starts its
--   subscription anew. View and Refines read the rows as a map; Roots, Parents and Back are about the way
--   up and back.
-- - Machines: web/src/state/machines.ts in Url, machine-store.ts in Store, machine-modal.ts in Modal and Forms:
--   an operation that waits for the daemon is split where it waits. Known, Credited and Refused are about
--   the machines and their credentials; Pairing, Dialog and Stale about the dialog, with a step relation of the user's and the
--   daemon's steps; Cases has lemmas on cases.
-- - Prelude: tests on numbers, lists measured by native numbers, integers.
--
-- Bounds and fuel: numbers are natural numbers and integers with the source's tests for safe integers
-- written out. `decode` and the loops over a sequence run on fuel, one more than the number of bytes;
-- every nested value and every item takes a byte at least, so the fuel lasts on every input.
--
-- Parameters: `TextEncoder`, a fatal `TextDecoder` and `DataView`'s float access are fields of
-- `Platform`, and what the codec relies on is `Laws`. The ids of `crypto.randomUUID()` and the layout
-- are arguments.
--
-- `URL`, `String.prototype.trim`, `localeCompare`, `Array.prototype.sort` and the clock are parameters
-- too; of `sort` the theorems assume that it permutes.
--
-- Not modelled: limits of memory and of the arguments of a call, the load of what is stored, the opening of
-- a connection and its timeout, the session's controller, the streams behind the explorer's subscriptions and their cancelling, the
-- menu of a machine, the terminal shells, the views, the generated RPC types, the code generator and
-- the daemon.
pub mod Prelude
pub mod Cbor
pub mod Wire
pub mod Workbench
pub mod Client
pub mod Session
pub mod Explorer
pub mod Machines
