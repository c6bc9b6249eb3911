-- ===== src/Lib.antt =====
-- The logic of MeshMonday, a server that listens to MeshCore group messages on MQTT, decrypts those
-- of the channels it knows, and keeps a weekly board of `#meshmonday` check-ins.
--
-- How a message travels: a broker's message carries an envelope of JSON with the hex text of a radio
-- packet. `Ingest.HandleMessage` reads topic and envelope, lets `meshcore` decode the packet, lets
-- `checkins` decrypt it and read the check-in from it, and writes up to four rows through
-- `storage.Store`. The leaderboard reads the check-ins back and ranks the users.
--
-- Files and the code they model:
--   Meshcore: internal/meshcore/decode.go, DecodePacket and HashPacket. The packet is a record of the
--     bytes as the source cuts them; an error is `err` with the source's text. The byte reader keeps
--     `data` and the offset as the source does.
--   Checkins: internal/checkins/service.go (Checkins/Extract, Checkins/Text),
--     internal/checkins/mesh_weeks.go and WeekStartMonday (Checkins/Weeks).
--   Storage: internal/storage/sqlite.go. Storage/Schema has the tables as lists of rows and
--     `IsConsistent` as what the UNIQUE and FOREIGN KEY constraints of Migrate ask;
--     Storage/Statements has one function per statement, and Storage/Inserts the methods of Store.
--     Storage/Exec threads the world: the database, the faults still to come (one entry for each
--     statement, where `none` lets it run), and what the waits and the looks at the context find.
--     Storage/Retry has the loop that tries a busy statement again, Storage/Queries the two lists of
--     check-ins, Storage/Restore the scan of a restore, Storage/Migrate what the migration does to rows,
--     Storage/Snapshots the transaction that stores a board, Storage/Retention
--     internal/storage/retention.go with the loop of PruneRawPackets (and, in Storage/Retention/Overlap, its
--     statements as steps between which the statements of other calls run), Storage/Space
--     internal/storage/space.go, where what a PRAGMA or the file system answers is an argument.
--   Config: internal/config/config.go, the lists, the hashtag keys and the channel secrets;
--     Config/Validate has Validate, Config/Load has Load with its errors and TopicForIATA, Config/EnvFile
--     internal/config/envfile.go on the lines that the scanner finds.
--   Ingest: internal/ingest/service.go. Ingest/Message reads topic and envelope, Ingest/Retry has
--     withBusyRetry, Ingest/Service has HandleMessage with every write in its
--     order, Ingest/Restore has RestoreCheckinPacketsFromRaw.
--   Leaderboard: internal/leaderboard/service.go. Leaderboard/Compute has Compute, where the order in
--     which a map is visited is a parameter; Leaderboard/Streak has longestMondayStreak, where
--     the loop that drops repeats writes into the array that it reads.
--   Web: internal/web/server.go. Web/Server goes from a request to the reply that is handed to a
--     template or the JSON encoder; Web/Format has the ring, the tooltip and the list of channels.
--   Mqtt: internal/mqtt/consumer.go. Mqtt/Consumer has the list of subscriptions and the steps in which
--     calls of Subscribe, connections and OnConnect interleave; what the broker answers is part of a step. Mqtt/Connect has
--     Connect, Close and connectMQTTWithRetry.
--   Commands: cmd. Commands/Start has main of cmd/server up to the subscription, Commands/Retention
--     runRetentionLoop, for as many ticks as are given, Commands/Replay the loop of cmd/replay,
--     Commands/Seed cmd/devseed. Commands/System puts the programs together: an event is the opening of a
--     store, a message, a request, a round of pruning, a restore or a seed, and any sequence of
--     events with any faults is a path of the system.
--   Go: what the source uses of the standard library (strings, hex, utf8, strconv, time, sort), to
--     the extent that it is used. Platform is a record of what stands outside: SHA-256, HMAC, AES,
--     JSON, time zones and the case tables of Unicode. A theorem takes any such record.
--   Base: the names that all modules share, lists, bytes, results, and lists of rows with a key.
--
-- Bounds: strings are lists of bytes. Numbers are natural; where the source subtracts, the guard of
-- the source is in the model. A retried write is tried at most sixteen times, which is the source's
-- own bound, so recursion on what is left needs no fuel of its own. The loops of PruneRawPackets take
-- fuel: a round deletes a packet or passes one, so one round more than there are packets is enough.
-- The endless loops of cmd (the retention, the connection that is tried again) run for as many ticks or
-- attempts as are given. A difference of times stops at the 292 years of a `time.Duration`.
-- Times count seconds from 1 January of year 1, UTC, the zero of Go's `time.Time`; an offset is one of
-- the zone at an instant, with the instants at which it holds, and `time.Date` looks it up as Go does.
--
-- Not modelled: reading and sending (HTTP, MQTT, files, signals, the shutdown, logging), templates
-- and assets, the threads of the server but for those of the consumer and of the pruning (an event
-- of Commands/System runs to its end before the next begins), the SQL engine beyond the constraints
-- and the rows that the statements touch, and internal/logging, which builds a logger.
pub mod Base
pub mod Platform
pub mod Go
pub mod Meshcore
pub mod Checkins
pub mod Storage
pub mod Config
pub mod Leaderboard
pub mod Ingest
pub mod Web
pub mod Mqtt
pub mod Commands
