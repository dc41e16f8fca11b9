-- ===== src/Lib.antt =====
-- lierc-api: a model of the Go server of the lierc IRC client (`cmd/lierc-api`, `internal/`).
--
-- The program has two faces. The stream server answers a logged-in user with a stream of
-- Server-Sent Events: it reads the Perl service's session cookie, registers a stream, replays the
-- state of the user's connections from liercd, and passes on each message that NSQ delivers. The
-- admin command `lctl` moves, restarts and deletes connections, by HTTP requests to the liercd
-- instances and statements to Postgres. Which file models what:
--
--   Storable     internal/storable/storable.go: DecodeHash and readString. Format is what Perl
--                freezes; Guard, RoundTrip and Sound relate the reader to it.
--   Session      internal/session/session.go: ReadPerl and User, with url.PathUnescape,
--                strings.Split and base64.StdEncoding. HMAC-SHA1 is the argument `sign`.
--   Ids          internal/ids/ids.go: FromHex and New. The random bytes are an argument.
--   Stream.Sse   internal/stream/server.go: sseEvent, pingEvent, streamEvent. Sse.Reader is a
--                client that follows the standard for event streams, Sse.Frames the round trip.
--   Stream.Perl  internal/stream/server.go: perlTrue and perlString. encoding/json's strings and
--                strconv's floats are the record `Codec`.
--   Stream.Registry  internal/stream/server.go and writer.go: the Server and its streams. Each
--                section that the source runs under `s.mu` is a function on the record `Server`.
--                A stream is shared, so it lives in a heap under a number. Registry.Steps has the
--                step relation, whose sequences are the interleavings of the goroutines.
--                Registry.Hub is the registry without pointers and maps: a table of queues.
--   Stream.Serve internal/stream/writer.go: serveStream's handshake, and the close of a stream.
--   Stream.Replay  internal/stream/replay.go: the messages that replay sends.
--   Stream.Deliver  internal/stream/server.go: Deliver, up to its last section.
--   Stream.Stats internal/stream/stats.go.
--   Stream.Http  internal/stream/server.go: ServeHTTP, user and pingPath; internal/db/db.go:
--                UserState.
--   World        the world outside: HTTP replies, rows, errors, waiting and printing. The record
--                `Outside` answers by what happened before, which a trace records, newest first,
--                so that any `Outside` stands for any failures and any concurrent changes by
--                others. `Act` is the monad of the actions, an error ends it.
--   Database     internal/db/db.go: LookupConfig, LookupLiercd and SetLiercd.
--   Liercd       internal/liercd/liercd.go: the client, its routing by instance, FindOrRecreate.
--   Lctl.Instance  internal/lctl/move_connection.go destroyOn, reconnect.go createOn, reconnectOne.
--   Lctl.Move    internal/lctl/move_connection.go: moveOne. Move.Observed reads off a trace whether
--                a connection runs on an instance and what its column holds.
--   Lctl.Batch   internal/lctl/move_connections.go: moveConnections behind its flags.
--   Lctl.Delete  internal/lctl/check_connections.go: destroyAndDelete and deleteRows.
--   Lctl.Running internal/lctl/reconnect.go and revive.go: their loops.
--   Lctl.Main    internal/lctl/lctl.go: mainWith and ReadIDs.
--   Proxy        internal/proxy/proxy.go: the address that Wrap passes on, and its logWriter. Package
--                net is the record `Net`.
--   Utf8, Json   texts as code points with their UTF-8, and decoded JSON values.
--   Connconfig   internal/connconfig/connconfig.go: Clean (Text reads a field, Host and Patterns hold
--                the formats), and Address: BlockedIP, Exempt, CheckHost.
--   Lctl.Users   internal/lctl/delete_users.go: deleteUsers behind its flags. Triples has rules for
--                what holds before and after an action, as long as nothing is deleted out of turn.
--   Lctl.Encoding  internal/lctl/fix_config_encoding.go: the repair of texts encoded twice.
--   Lctl.Check, Lctl.Connections  internal/lctl/check_connections.go and delete_connections.go: the
--                two commands, behind the parsing of their flags.
--   Lctl.Inactive  internal/lctl/inactive_users.go: parseSince; internal/lctl/stop_inactive.go.
--   Lctl.Prune   internal/lctl/prune.go: the batches of pruneLogs, on fuel for each connection of more
--                than its rows and those that are logged meanwhile.
--   Config       internal/config/config.go: Load.
--   Base         lists of bytes, association lists for maps, numbers in a base, Boolean equality.
--   Tests        runs at concrete inputs.
--
-- A Go string or byte slice is a list of bytes; a string of a decoded JSON value, which is valid
-- UTF-8, is the list of its code points. A map is an association list, and a `range` over a map
-- runs in the order of that list. Errors and printed lines are values that name the message with
-- its arguments. Three loops run on fuel, the batches of prune among them: the digits of FromHex
-- on the number itself, which each round divides by 62, and the pieces of nicks on the length of
-- the list, from which each round takes at least one, so that neither runs out. The count of
-- DecodeHash is below 2^32, so its product with 6 does not wrap in uint64.
--
-- Not modelled: the remaining lctl commands, the NSQ consumer and the wiring in main, and the
-- Perl service. Timeouts, contexts other than their error, log lines and response headers are
-- left out of what is modelled.
pub mod Base
pub mod Ids
pub mod Storable
pub mod Session
pub mod Stream
pub mod World
pub mod Database
pub mod Liercd
pub mod Lctl
pub mod Proxy
pub mod Utf8
pub mod Json
pub mod Connconfig
pub mod Config
mod Tests
