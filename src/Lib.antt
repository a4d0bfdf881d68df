-- ===== src/Lib.antt =====
-- A model of TunnelHelper's tunnel records, their store, its event hub and its routing daemon, and what
-- they guarantee.
--
-- A tunnel is a record, internal/model. `Validate` checks one record, and ownership.go says which rule
-- priorities, route tables and routes it claims. The store, internal/store, keeps the records in files and
-- refuses one that shares something with another; a bundle of records is checked as a whole by
-- `validateRecordSet` of internal/core/batch.go. Clients see records with their secrets taken out, and send
-- them back without; `MergeSecrets` of internal/model/prepare.go puts the secrets in again. What happens to
-- the tunnels is published on the hub of internal/core/events.go.
--
-- The routing daemon, internal/babel, speaks the Babel protocol to its neighbours. Packets come in through
-- `Parser.Packet` of internal/babel/proto/parser.go, one TLV after the other, and go out through the queue
-- of internal/babel/internal/queue/queue.go, which fills a packet with `AppendValue` up to the MTU. Hellos
-- feed the history of internal/babel/internal/history/history.go, from which
-- internal/babel/cost.go makes the cost of a link; updates pass the feasibility condition of
-- internal/babel/source.go.
--
-- The files:
-- Base.antt and below: what the modules share. Tests, conditionals and lists over the native numbers,
--   integers for Go's signed ones, texts as lists of bytes, association lists for Go's maps.
-- Model.antt and below: internal/model.
--   Types: types.go; a pointer is an option, a string type with constants a data type, a time a number of
--     nanoseconds. Check: an error value, in which a nil pointer that is read is a result of its own; an
--     error is a constructor for its text, without the names in it. Library: the functions of other
--     packages, as the fields of a record that every check takes.
--   Validate and below: validate.go, validate_xfrm.go and the identifiers of id.go; `validateWireGuard` is
--     `validate_wire_guard`, and so on. Ownership: ownership.go. Secrets: `Redact` of secrets.go and
--     `MergeSecrets` of prepare.go, whose loops over map literals go in the order of the literal; `Clone`, a
--     round trip through encoding/json, is a parameter. Defaults, Prepare: the rest of prepare.go; what the
--     random source gives is in the fields of `Generator`, one for each place that asks.
--   Runs and below, Secrets/*, Prepare/*: theorems.
-- Core.antt and below: internal/core.
--   Outcome and Records: `validateRecordSet` of batch.go; its maps are the fields of `Owners`, and a helper
--     `after_x` is the rest of the loop's body once the map `x` is written. Events: events.go, where a
--     subscriber is what both ends of its channel hold. Records/*, Events/*: theorems.
-- Store.antt and below: internal/store/store.go. `checkNamesLocked` is `check_names`, and the answer of the
--   file system to a write is the argument `Commit` of `create`, `update` and `delete`. Store/*: theorems.
-- Proto.antt and below: internal/babel/proto.
--   Types, Addr, Value, Result: types.go, the netip addresses that the parser uses, the TLV structs of
--     tlv_*.go and packet of proto.go, the errors of errors.go. A TLV struct is a record with the fields'
--     names, the interface `Value` is a data type.
--   Reader, Decode/Fields, Decode/Loop, Decode/Sub, Decode/Values: the reading half of parser.go. `uint8`,
--     `uint16` and `uint32` are the primitives, `routerID`, `address` and `prefix` are `router_id`, `address`
--     and `prefix`, `forEachValue` and `forEachSubValue` are loops over a callback with a state, and
--     `valuePayload`, `Values` and `Packet` are `value_payload`, `values` and `packet`. The decoder of a TLV,
--     such as `hello`, is `read_hello`.
--   Encode: the writing half; a function appends to a buffer as in the source, placeholders included.
--   Interval: the float64 arithmetic of `appendInterval`, exact.
--   Wire, RoundTrip/*, Safety/*: lemmas and theorems on both.
-- Babel.antt and below: History (history.go), Source (source.go, feasibility.go), Cost (cost.go), Queue
--   (queue.go), Routes (route.go, route_table.go, internal/table/table.go), Delay (delay.go), Deadline
--   (internal/deadline/deadline.go), Sources
--   (source_table.go, and speaker.go where it keeps that table), each with its theorems in its child
--   modules.
-- The files Tests.antt in these folders: concrete runs, on the records of Model/Samples.antt.
--
-- A uint8, uint16 or uint32 is a natural number whose wrap-around is written out. Go's (value, error)
-- pairs are `Result`, in which a Go panic is a result of its own; an int8 prefix length is its bit
-- pattern. The loop over TLVs runs on fuel, one for each byte of the buffer, which is enough since a
-- TLV takes a byte at least: the result `stuck` does not occur. A callback that writes to variables of the
-- enclosing function is a function of these variables. The parser's maps are association lists, read
-- by key only. A method that holds its object's mutex is one step.
--
-- Not modelled: the plan and the application of a bundle, the manager and the reconciler, migrations and damaged record files; the rest of the speaker, the
-- neighbour and interface tables and the floating-point estimators of internal/babel; sockets, timers and
-- goroutines, the kernel interfaces and the terminal application. In the wire format, the address
-- compression that nothing calls and log output.
pub mod Base
pub mod Proto
pub mod Babel
pub mod Model
pub mod Core
pub mod Store
