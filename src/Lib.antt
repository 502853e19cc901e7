-- ===== src/Lib.antt =====
-- Verification of e2d, the manager of etcd clusters, and of e2db, its tables over etcd.
--
-- A cluster of managers. Each member runs etcd and takes part in a gossip network. The loop of
-- runMembershipCleanup (pkg/manager/manager.go) receives the events of that network, reports to the
-- cluster membership whether a majority is running, and adds and clears suspects; a ticker evicts
-- the members that were suspects for the timeout.
--   Manager/Membership: pkg/manager/membership.go. `Membership` is clusterMembership; its methods
--     are functions of it (add_suspect is addSuspect, and so on), `tick` is one tick of the clock.
--     The children are the histories of events and ticks, and what is evicted.
--   Manager/Cleanup: runMembershipCleanup, the remover of New, and lookupMember,
--     lookupMemberNameByPeerAddr and removeMember of pkg/manager/server.go.
--   Manager/Gossip: pkg/manager/gossip.go, the members and their statuses; the child Network is the
--     settings of the member list, the start and the log.
--   Manager/Peers: Peer, initialClusterStringFromPeers and validatePeers of pkg/manager/server.go.
--   Manager/Config: pkg/manager/config.go, and Client/Security: pkg/client/config.go. Manager/New is
--     New of pkg/manager/manager.go.
--   Manager/Server: the flags, the start and the stop of pkg/manager/server.go, its createSnapshot,
--     clearVolatilePrefix and placeSnapshotMarker; the child Settings is what startEtcd hands to etcd
--     and restoreSnapshot to its restore.
--   Manager/Join: joinEtcdCluster, and pkg/manager/client.go. Manager/Bootstrap:
--     startOrJoinEtcdCluster, over the rounds before its timeout, and startEtcdCluster.
--   Manager/Run: Run, Restart and the stops of pkg/manager/manager.go, and pkg/manager/service.go.
--   Manager/Snapshotter: runSnapshotter and restoreFromSnapshot of pkg/manager/manager.go.
--   Netutil: pkg/netutil/netutil.go, the reading and printing of addresses.
--
-- e2db keeps structs as rows in etcd: the encoded struct under the key of the row, and the key of the
-- row under the keys of its indexes.
--   E2db/Key: pkg/e2db/key/key.go, with filepath.Join and Clean.
--   E2db/Values, E2db/Model: pkg/e2db/cast.go and model.go. A struct is its list of fields, each with
--     its tags and its value, in the order in which the loops over the map of fields meet them.
--   E2db/Types: readStructFields of pkg/e2db/model.go, with what reflect knows of types as a table.
--     NewModelDef and NewModelItem are the child Models.
--   E2db/Crypto: pkg/e2db/crypto/aesgcm.go.
--   E2db/Matcher: pkg/e2db/q/matcher.go.
--   E2db/Rows, E2db/Query: pkg/e2db/query.go and sorter.go.
--   E2db/Table, E2db/Tx: pkg/e2db/table.go and tx.go; Insert, Update and Delete are the children.
--   E2db/Methods: the methods of pkg/e2db/table.go, and New and Table of db.go.
--   E2db/Db: pkg/e2db/config.go, codec.go and db.go.
--   Client: pkg/client/client.go. A request is a function of the world, that is the contents of etcd
--     and what happens to the requests to come: each is answered, never arrives, or is performed and
--     its answer lost. `M` is the monad of such requests. Client/Dial is New, MustGet and IsHealthy.
--
-- Snapshots of the store are saved as streams, compressed and encrypted, and read back.
--   Snapshot: pkg/snapshot. A `Stream` is the text that is still to be read and the error after it.
--     Varint and Streams are pkg/snapshot/util and pkg/snapshot/crypto, Backup is snapshot_file.go
--     with the calls of the manager, Url is snapshot.go, Bucket is snapshot_aws.go and
--     snapshot_do.go.
--
-- The command line. App is cmd/e2d/app/run.go and appendHosts of cmd/e2d/app/pki.go, App/Run the
-- flags and the command run, App/Env pkg/cmdutil/env.go. The getters of Providers find the addresses
-- that the configuration of the manager is made with.
--   Providers: pkg/discovery and pkg/provider. Aws is the nodes of an auto scaling group or with some
--     tags, DigitalOcean those with a tag, Roles the region and the role of an instance, Addrs the
--     loop that they share.
--   Pki: pkg/pki/pki.go, and in Commands the commands of cmd/e2d/app/pki.go, by the files that they
--     have written when they end.
--
-- Log lines are in logfmt.
--   Log: pkg/log/encoder.go. Escape is the escaping, Encoder and EntryEncoder the encoder of entries,
--     Literal the encoder of arrays; Reader is a reader of values, which the program does not have.
--     Loggers is pkg/log/config.go and pkg/log/log.go.
--
-- Numbers are natural numbers and times nanoseconds. Texts are lists of bytes. Loops are over
-- lists, those of tickers over the list of their ticks. A varint has ten bytes of fuel, which every
-- int64 fits into. The reading of struct types has fuel for the depth of embedding: a rank of the
-- types bounds it, and types that embed each other have none. A panic is a result of its own.
--
-- Parameters, with what is relied on of them: etcd (IsEtcd), AES-GCM and the nonces (IsGcm), SHA-512
-- (IsDigest), the codec of the rows (IsCodec), gob and the member list (Gob), the parsing of IP
-- addresses, and the steps of sort.Sort, which are a plan of tests and exchanges; AES-CTR and HMAC
-- (IsCipher), gzip (IsGzip), the store of etcd (IsKv), the parser of net/url, PEM, bbolt and JSON;
-- what peers and etcd answer to a start, an addition or a removal of a member; the functions of
-- zap's configuration (IsPlainConfig) and its colours (IsColored); what reflect knows
-- of types; cfssl, X.509 and the file system; the answers of AWS and DigitalOcean and of S3
-- (IsStore); memberlist.
--
-- Not modelled: the code that protoc generates, the level of etcd's own logger, the loggers that are
-- given to cfssl and etcd, and the subcommands that only print (version, completion). The formats of
-- fmt stand as fixed texts in errors. Locks are requests that succeed or fail; the threads that they
-- keep apart are not modelled, nor is the interleaving of the ticker's loop with the other methods.
-- A round of startOrJoinEtcdCluster looks at the members once, where the source asks for the pending
-- members and then for all, and what other nodes tell between two rounds is not part of it. Errors that
-- print what they are about are the same for all that they print.
pub mod App
pub mod Client
pub mod E2db
pub mod Log
pub mod Manager
pub mod Netutil
pub mod Pki
pub mod Prelude
pub mod Providers
pub mod Snapshot
