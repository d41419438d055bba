-- ===== src/Lib.antt =====
-- etcdlabs: a playground that runs an etcd cluster inside one process and lets web users write, read,
-- stop and restart nodes.
--
-- The parts. `backend/web` serves HTTP: each request is put under a user id (utils_id.go), the user
-- cache remembers who is active, and `clientRequestHandler` (handler.go) runs one of six actions,
-- guarded by the limiters of `pkg/ratelimit`, on the cluster of the package `cluster`. A `Cluster`
-- (cluster.go, cluster_other.go) holds `Member`s (member.go), each with an embedded etcd server and
-- the `MemberStatus` (cluster/clusterpb) that the page shows.
--
-- The files.
--   * Prelude: Go's strings as byte lists, maps as association lists, `int64` and its wrap-around,
--     slices as lists, and `Exec`, where `panics` is a Go panic.
--   * Ratelimit: pkg/ratelimit/ratelimit.go and utils.go. `check` is `Check`; the case that wins its
--     `select` is an argument.
--   * Clusterpb: cluster/clusterpb/member_status.go and the struct of clusterpb.pb.go. `Encode` has
--     `Size`, `Marshal` and `MarshalTo` (`size`, `marshal`, `marshal_to`), `Decode` has `Unmarshal` and
--     `skipClusterpb` (`unmarshal`, `skip`); its other children are theorems and lemmas about them.
--   * Cluster: `Types` has the structs, `Member` the start, stop and client of one member, `Status`
--     `FetchMemberStatus` and `UpdateMemberStatus`, `Leader` the two `WaitForLeader`, `Build` the
--     function `Start`, `Ops` the methods that change a cluster, `View` cluster_other.go, `Files`
--     the file helpers of utils.go. `Hosts` and its children, `Coherence`, `Quorum`, `Election`,
--     `Removal`, `Shutdown`, `Launch` and `Servers` with its child are theorems, `Inversion`, `Refresh`,
--     `Calm` and `Waiting` lemmas.
--   * Web: `Identity` is backend/web/utils_id.go, `Sessions` the user cache of handler.go, `Requests`
--     the six actions of `clientRequestHandler`, `Requests/Handler` the rest of it, `Random`
--     backend/web/utils.go, `Server` backend/web/server.go, and `Server/Routes` the other handlers of
--     handler.go with the adapter of context.go. The children with other names are theorems.
--   * Command: cmd/backend-web-server/main.go.
--   * Runs: concrete values, and the theorems at them.
--
-- State passing. An operation takes the state and an event, a record of what the world answers to
-- that call (the results of etcd, of the file system and of the clock), and gives the new state with
-- the error. Errors and early returns are values, and an index out of range or a nil pointer panics.
-- What the code relies on in other packages is a parameter (`Platform`, `Library`, `Buckets`,
-- `Counter`, `FileSystem`), or a named hypothesis where a theorem needs it (`KeepsUrls`: a server
-- reports the client URLs that it was started with; a SHA-512 sum has 88 bytes in base64;
-- `template.HTMLEscapeString` leaves none of the bytes that start or end a tag or an attribute).
--
-- One field of `Member` is not in the source: `srv_open` says whether the server behind `srv` is open.
-- `Start` and `Restart` set it with the server, `Stop` clears it where it closes the server, and no
-- operation reads it.
--
-- Loops are structural recursion over lists or a count taken from the code. A loop that polls until
-- something happens (`WaitForLeader`) runs over the list of the answers it gets; `none` says that the
-- answers end first, and nothing is stated of that case. The same holds of the values that `randBytes`
-- draws and of the calls of `multiRandStrings`, where theorems say how many are enough.
-- The loop of `Unmarshal` runs over as many rounds as there are bytes, and `skipClusterpb`, which calls
-- itself, over two for each byte and one more: every round moves the index on. `stuck` stands for
-- running out. The loops of `encodeVarintClusterpb` and `sovClusterpb` are recursions on the
-- order of the numbers.
--
-- Not modelled: the locks (each operation is one step), logging, the JSON of requests and
-- answers, the listener of the HTTP server, and the frontend. Of clusterpb.pb.go, the two fixed-width
-- encoders and `sozClusterpb`, which nothing calls, and what the package proto does with the struct are
-- left out. A handler that panics is aborted by net/http; what it changed before is left out. Goroutines that change one member each run
-- in the order of the members. Times are natural numbers of nanoseconds.
-- The size that `Start` is asked for is an integer; ports are natural numbers, so that a negative
-- `RootPort` and ports past the largest `int` are left out, and so are negative indices of members.
pub mod Prelude
pub mod Ratelimit
pub mod Clusterpb
pub mod Cluster
pub mod Web
pub mod Command
pub mod Runs
