-- ===== src/Lib.antt =====
-- sysc-tray is a service between the StatusNotifierItem applications of a desktop and a shell that
-- draws them. A watcher sees the applications, proxies read their properties and menus, one owner
-- holds what was read, and a presenter connection carries it to the shell and brings commands back.
-- Each of these parts is modelled, and the service that holds them together: what the watcher tells goes to
-- the service, which starts a reader of the item and, when it has a menu, one of the menu; what they read
-- goes to the owner, and a command of a shell goes from the dispatcher through the service to a reader.
--
-- protocol/types.go is Protocol/Types.antt: the limits and the messages. protocol/validate.go is the
-- other modules of Protocol: Fields (texts, keys, enumerations), Pixmaps, Items, Snapshots, Menus
-- and Messages (envelope, hello, command, reply, sequence). Errors lists the ways to fail. A
-- validator is a `Check`, and its checks stand in the source's order. utf8.ValidString is
-- Utf8.antt, after its documentation. json.Valid is a parameter.
-- internal/menu/validate.go is Menu/Validate.antt: the walk over an explicit stack. MenuTree.antt has
-- what it shares with the recursive walk of the protocol: a tree as the list of its nodes.
-- internal/state/owner.go is State: Maps and Table for the map and the order of addresses, Clone for
-- the deep copies, Owner for the operations, Owner/Steps for their sequences. `add`, `update`,
-- `update_menu`, `remove`, `menu_of`, `snapshot`, `attach`, `detach` and `close` are Add, Update,
-- UpdateMenu, Remove, Menu, Snapshot, Attach, Detach and Close.
-- Each runs alone on the owner's goroutine, as a function of the state and of a world `W` in which the
-- sinks live. Sink.Send and json.Marshal are the fields `send` and `marshals` of `Env`.
-- internal/presenter/connection.go is Presenter: Connection for the queue and its budget, Dispatch for
-- `dispatch` and `readLoop`. The interface Commands of internal/presenter/server.go is the record
-- `Commands`. Handshake is the beginning of that file's `handle`, with readHello, and Handshake/Greeting the
-- same with the strict decoder in it. Server is what follows, where one connection takes the place of
-- another, Server/Lifecycle is Serve, Close, acceptLoop and the goroutines of `handle`, and Socket is
-- listenRuntime. The decoders of the connection's frames are the fields of `Codec`.
--
-- protocol/frame.go is Protocol/Frames.antt: ReadFrame, WriteFrame and writeAll; and Protocol/Strict.antt:
-- DecodeStrict, where `scan_value` with its two loops is scanJSONValue.
-- internal/dbusval/value.go is Dbusval.antt: the values of the bus as a data type, with its readers, and
-- the signals, calls and replies that the other parts share.
-- internal/item is Item: model.go is the Limiter and Model, where `normalize` is normalize, pixmap.go is
-- Pixmaps and proxy.go is Proxy, with Start and Close in Proxy/Started: `pump`, `refresh`, `round`, `await` and the commands by their names. Its
-- `clamp`, which internal/menu has too, is Utf8/Clamp.
-- internal/menu is Menu: validate.go is Validate, model.go is Layout, where `convert_layout` is
-- convertLayout, and proxy.go is Proxy, with Start and Close in Proxy/Started: `handle`, `refresh`, `check` and the commands by their names.
-- The match rules that both readers ask the bus for are Matches.antt.
-- internal/watcher is Watcher: address.go is Address, server.go is Server; attach.go is Client, Attach for
-- attach and close, and Loop for serveOnce and Run. Registry
-- is the map of the items that both have, and the specification of what an observer may be told.
-- Telling is the calls of the observer, which come after the lock is released, Server/Told the server with
-- them, and Serving is Serve and Close of the server.
-- internal/app/run.go is App: the workers and each step that changes them, Steps for sequences of them,
-- Steps/Serve for them with the calls that they make of the state owner,
-- Process for Start, Run, Close and unwind, Terminate for `Terminate`, and Commands for the service as the handler of the dispatcher.
-- internal/ownership/ownership.go is Ownership.antt, with the bus and /proc as parameters.
--
-- Numbers. Sequences are uint64 and wrap; totals of pixmap bytes are uint64 and wrap. A slice is
-- shorter than 2 ^ 63. The counters of a connection are ints within 32 MiB. A revision and a
-- request ID are compared, never computed; the generations that the watcher and the presenter's server
-- count are uint64 and wrap. An int32 is an integer.
-- Fuel. The walk over the stack has 513 rounds, one more than the nodes it admits; the loop that
-- writes a frame has one round for each byte. The conversion of a layout has 512 rounds, one for each
-- node past the root and one for the node past the limit. Terminate looks at a process 32 times: a look
-- each tenth of a second for three seconds, one at the start and one behind the deadline.
-- The scan for repeated keys has two rounds for each token and two more.
-- A nil slice and an empty one are one list, also for reflect.DeepEqual. A nil map entry and a
-- missing one are `none`. The order in which Go visits the map of an item's icons is a parameter.
--
-- The pointers of the conversion into the tree that grows are paths from its root. The pointer of a
-- worker is its serial number. The map of a registry is a list, in the order of some iteration over it.
-- Goroutines take turns: what one does between two holds of a lock is a step, and what another did
-- meanwhile is an argument of the next one.
-- What a goroutine has to do after it releases a lock is kept as a task of the service or as the calls of an
-- observer that are due, and a later step takes it up, if any does. Taken together in one step are: an
-- `onItem` or `onMenu` with the call of the owner that ends it, the two holds of `bindMenu`, `handle` of a presenter from Attach
-- to the failure of the connection before, and `unwind` of Process, which is for a Close of the presenter's
-- server that returns.
--
-- Parameters are the bus library (ObjectPath.IsValid, Call.Store, the answers to GetNameOwner, to rules and
-- to calls), /proc and the signals of the system, the calls of the file system and of path/filepath, the
-- clock, and encoding/json: what its decoder makes of a text is a list of tokens.
--
-- Not modelled: the deadlines and the credentials of a socket, and os.Remove's error in Close of the
-- presenter's server; cmd, which only starts the service; internal/dbustest, which is for tests; the texts
-- of errors.
mod Prelude
pub mod Utf8
pub mod Protocol
pub mod MenuTree
pub mod Menu
pub mod State
pub mod Dbusval
pub mod Matches
pub mod Watcher
pub mod Item
pub mod Ownership
pub mod Presenter
pub mod App
mod Tests
