-- ===== src/Lib.antt =====
-- Pluster, a proxy in front of a Redis cluster: a client speaks RESP to the proxy as to one server,
-- and the proxy sends each command to the node that holds the slot of its key, over connections
-- that all clients of an event loop share, and puts the replies back in order.
--
-- The parts and the files that model them:
--
-- - Proto is pkg/proto, the wire format. Proto/Value is `Value` of resp.go, with one constructor
--   for each combination of type and nil that the code builds. Proto/Parse is `ParseValue`,
--   Proto/Scan `ScanValue`, Proto/Encode `EncodeValue`, `EncodeCommandBytes` and their kin and the
--   `Writer`, Proto/Request `ParseRequest`, Proto/Int64 `parseIntBytes` and `appendInt`, Proto/Line
--   `readLine` and the body of a bulk string. Proto/Reader is the `Reader` of a connection:
--   `ReadValue` over all the bytes that the connection will give, and in Proto/Reader/Commands
--   `ReadRequest`. Proto/Slot is crc16.go: the table, `CRC16`,
--   `HashSlot` and `hashTag`.
--   Proto/Command is command.go, with the table in two parts, Data and Other.
-- - Cluster is pkg/cluster/topology.go: `Snapshot` and the choice of a node for a slot in Cluster,
--   `parseClusterNodes` and `Update` in Cluster/Parse. A `*Node` is the address under which it stands
--   in the map of its snapshot. `nodeAddrForSlot` of the router stands here too. Cluster/Refresh is the
--   `Manager`: a refresh from an entry point, the fingerprint, the change of the entry points, the hook
--   for removed nodes, `Start` and the loop. What an entry point answers is a parameter, a `Conn` for
--   each address that can be dialled. Cluster/Order is the order of addresses in the sorted lists.
-- - Pool is the bounded pool of pkg/pool/pool.go, one function for each critical section of its
--   mutex; the runs of Pool/Count interleave them. Pool/Pipeline is `pipeConn` of pkg/pool/pipeline.go,
--   a round of its loop at a time. Pool/Registry is registry.go with the two managers of pools over
--   it: a pool is a handle there, and the runs of Registry/Invariant interleave what happens under its
--   lock. Pool/Waiters has those who wait in `Get`, and `notify`. Pool/Dial is how a pool opens a
--   connection, and the choice of `PipelinedPool.Do`.
-- - Router is pkg/router/router.go. Router/Node is `execOnNodeOnce` and `execOnNode`, Router/Redirect
--   `executeRedirect`, Router/Scan `executeSCAN`, Router/Merge the merges, Router/Keys MGET, MSET, DEL
--   and EXISTS, Router/Script `ExecScript`, Router/Execute `Execute` and the commands for all
--   masters, and Router/Pipeline `ExecPipeline`, which nothing in pkg/engine calls. The connections to
--   the nodes and the timer are a parameter, a `Backend` over a type of worlds; every function passes
--   the state on and returns a `Result`.
-- - Engine is pkg/engine. Engine/Responses is the response queue of handler.go: a request takes a
--   slot (`allocResponseSlot`), replies fill slots in any order (`fillResponseSlotInLoop`,
--   `accumulateResponseSlot`, `accumulateFanInSubResponse`), and `flushWriteAccum` of
--   backend_mux.go writes what is ready. Engine/Responses/History is what it is held against: the
--   list of all slots ever allocated with their data.
-- - Engine/Mux is `backendMux` of backend_mux.go. Engine/Mux/Conn has what happens to one connection
--   to a node (`pending`, `head`, `writeBuf`, and the bytes written), Engine/Mux the operations
--   `send`, `sendAsk`, `dialBackend`, `failDialing`, `onOpen`, `onClose`, `flushBackendWrites`, and
--   Engine/Mux/Traffic `onTraffic` with `parseRedirectionMsg`. The maps `conns` and `dialing` are
--   functions of the address. What an operation does to clients, and the dials it begins, come back
--   as a list of effects; which connections are clients, which dials fail at once and which nodes
--   are replicas are parameters (`Env`). A dial that fails later is a call of `fail_dialing`. The
--   fuel of the loop of `onTraffic` is the length of what has been received.
-- - Engine/Pubsub is pubsub_hub.go: the maps `subs` and `clientSubs` and the states of the clients,
--   in `subscribe`, `unsubscribe`, `removeClient` and what they call. Engine/Pubsub/Messages is
--   `dispatchMessage` and `onSharedBackendTraffic`, with `filepath.Match` and the order of the map
--   `subs` as parameters, and Engine/Pubsub/Shared the connection that all clients of the hub share,
--   around the operations on the maps.
-- - Engine/Blocking is blocking_pool.go: `get` is `reuse_idle`, `put` is `put_idle`.
-- - Engine/Split is the way of a request on the event loop, handler_routing.go: the groups of keys in
--   Engine/Split, the three `mergeFunc`s in Engine/Split/Merge, and `routeToBackend`,
--   `submitToRouter` and `routeMultiKeyToMux` in Engine/Split/Route. It uses Engine/Mux for the
--   requests, Engine/Responses for the slots, and Cluster for the address of a slot.
-- - Engine/Multi is handler_tx.go: the state of a client (`stateNormal` and so on), EXEC and the
--   transaction on its dedicated connection in Engine/Multi/Exec, and what `handleInMulti`,
--   `handleWATCH` and `handleNormal` do with each command in Engine/Multi/Dispatch. What is dialled
--   and closed is a list in the session.
-- - Engine/Clients counts the clients against their limit.
-- - Engine/Handler is `ProxyHandler` around these parts, of handler.go, handler_routing.go,
--   handler_blocking.go and handler_pubsub.go. Its `Ctx` is all that a request of one client may
--   change on its event loop: the session of Engine/Multi, the hub of Engine/Pubsub, the pool of
--   Engine/Blocking, and lists of what is done outside (calls of the router, dials, connections
--   closed, writes to other clients). Its `Server` is what the handlers only read. Handler/Dispatch is
--   `dispatchClientRequest`, `handleNormal` and `handleInSubscribe`; Handler/Local and Handler/Proxy
--   are PING, ECHO, SELECT, HELLO, AUTH, CLUSTER, CLIENT and PROXY; Handler/Blocking is
--   `dispatchBlockingCommand` up to the connection, and Handler/Replies what comes on such a
--   connection: its opening, its replies, its loss, and the requests that have waited; Replies/Watch is
--   the connection of WATCH. Handler/Release is what `onClientClose` itself gives back, without the
--   callbacks that closing a connection makes. Handler/Traffic is
--   `onClientTraffic`; the fuel of its loop is the length of what has been received, for each request
--   takes a byte at least. A dial that begins well and fails later is a call of
--   `blocking_dial_failed`. Handler/Once counts the slots and answers that a request adds, and
--   Handler/Auth has lemmas on a client without the password.
-- - Prelude holds what the parts share, and Tests concrete runs.
--
-- Conventions. A byte is a number below 256, a `[]byte` a list of them; no definition needs the
-- bound, and a theorem that does says so. An int64 is its bit pattern, a number below 2^64; the
-- tests of a sign and the additions wrap as in Go. A parser works on a position and the bytes from
-- there on, and answers with a value of `Outcome`: `ok`, `incomplete` (more bytes are needed),
-- `invalid` (`ErrInvalidProtocol`), `panicked` (an index or a slice out of range), or `stuck`, which
-- is no answer of the code but fuel that has run out. For the stream `Reader`, `incomplete` says that
-- the stream has ended. The fuel is the length of the buffer or the stream plus one;
-- it bounds how deep arrays are nested.
--
-- The router's redirections are followed by recursion on `MaxRedirects` + 1 less the depth, and its
-- retries on the number that is left, so neither has a case of fuel that runs out. Go's order of a map
-- is arbitrary; where the code ranges over a map, the model takes the order in which the keys have
-- come. Goroutines that a command waits for run one after another, in the order of the list of parts;
-- a part of MGET, DEL or EXISTS writes only what belongs to it, save for the first error. The
-- topology and what the world holds may change with every call of the backend.
--
-- Taken for granted: memory for what a client announces is always there; `bytes.Fields`,
-- `bytes.TrimSpace`, `bytes.EqualFold`, `strings.ToUpper` and `strings.ToLower` meet ASCII only; a
-- write to a connection takes all bytes. The pools of buffers and the copies that keep a slice from
-- being overwritten are not modelled, for the lists of the model are never overwritten.
--
-- Not modelled: what `OnClose` does for a connection while the caller of `Close` is still at work, as
-- for that of a blocking command whose client goes (`onBackendClose`, then `drainPendingCmds`);
-- `String` of a value and of a node; the maps that hold a mux, a hub and a pool for each event loop;
-- what is counted for a statistic, and the text of PROXY STATS, which is a field of `Server`;
-- the configuration file, whose values are parameters where they are used; and the start of the server.
-- The dials and the timers are I/O.
pub mod Prelude
pub mod Cluster
pub mod Engine
pub mod Pool
pub mod Proto
pub mod Router
pub mod Tests
