-- ===== src/Lib.antt =====
-- BridgeSessions: a mesh of peers that share terminal sessions, clipboards and files. This library
-- models the wire codec that every connection goes through and the buffer in front of it, the receiving
-- end of file transfers, the scrollback of sessions, the filters for escape sequences, folder pairs, and
-- the version strings and names that peers and operators hand in.
--
-- The program's parts. A peer turns a `Message` into a frame (`encode` in bs-codec.h) and sends it over
-- TLS (bs-tls.h); the other side cuts the stream by `frame_header_layout`, and `decode` gives the
-- message back. The mesh controller (bs-mesh-*.h) hands file messages to `handle_file_meta` and
-- `handle_file_chunk`, terminal messages to the session registry (bs-session*.h), and compares the
-- version strings of `Hello` to see what a peer understands.
--
-- Files and sources:
--   Base                 shared helpers: tests, lists and texts on native numbers, bit operations,
--                        signed words
--   Codec.Result         the exceptions of bs-codec.h as values
--   Codec.Serializer     `Serializer`: a writer is a list of bytes or an exception
--   Codec.Decoder        `Decoder`: a reader takes bytes off the front or throws; a read behind the
--                        end gives what the source gives there
--   Codec.Terminal, Clipboard, Media, Mesh, Join, File, Conversation, ServerInfo
--                        the messages of bs-codec.h, with `serialize_msg` and the case of `decode`
--   Codec.MessageType, Codec.Message, Codec.Dispatch
--                        the type bytes, the variant, `message_type`, the dispatch of `decode`
--   Codec.Zstd           `zstd_compress`, `zstd_decompress`
--   Codec.Frame          `encode`, `frame_header_layout`, `decode`
--   Codec.Wire           the relation between what a writer writes and what a reader reads, with a rule
--                        for each primitive; the RoundTrip modules apply it to each message
--   Codec.Steady         readers that do not get stuck
--   Transfer.Chunks      chunk sizes, `calculate_transfer_metadata`, `validate_transfer_metadata`,
--                        `validate_transfer_chunk`, `transfer_chunk_size_for_peer` (bs-codec.h)
--   Transfer.Shape       the count of chunks of a file
--   Transfer.Legacy      chunks for a peer without `+frm2`
--   Transfer.Digest      `Sha256Stream::final_hex`, `sha256_file_stream` (bs-codec.h)
--   Transfer.Receive     `FileReceiveState` (bs-mesh-conn.h), `handle_file_chunk` (bs-mesh-transfer.h),
--                        `decompress_chunk_payload` (bs-codec.h), `relative_receive_path` (bs-config.h);
--                        Publish and Invariant are about the last chunk and about every chunk
--   Transfer.Telemetry   `TransferTelemetryRing::append` (bs-codec.h)
--   Transfer.Timing      `TransferChunkTiming::record` (bs-codec.h)
--   Version.Parse, Version.Order
--                        `version_has_cap`, `parse_version_tag`, `version_is_older` (bs-codec.h)
--   Session.Ring         `RingBuffer` (bs-session.h) with its operations; Refine relates the array to
--                        the history of all bytes written, Pieces, Read, Lines and Stream are about reads
--   Session.Registry     `SessionRegistry` (bs-session-registry.h): Attach and Detach are its operations,
--                        Consistent, Leaving, Operations and Steps what holds behind any of
--                        them
--   Transport.Buffered   `drain_complete_frames`, `buffered_bytes_hold_complete_frame` (bs-tls.h)
--   Sync.Scan, Sync.Diff, Sync.Pair
--                        exclusions, `sync_scan_dir`, `sync_diff`, manifests, pair ids (bs-sync-pair.h)
--   Sync.Command         `bs sync pair` init, approve, status and run (main.cpp); Gate, Outcome,
--                        Again and Cycle are about runs before and behind an approval
--   Base64               `b64enc`, `b64dec` (bs-mesh-support.h)
--   Escape.Osc52, Escape.Plain, Escape.Modes, Escape.Settings
--                        `scan_osc52`, `strip_ansi_escapes`, `strip_mode_sequences` (bs-osc52.h)
--   Names                upgrade tags, peer names and base names (bs-codec.h)
--   Tests                concrete runs
--
-- Numbers are native; a word keeps its wrap-around where the source truncates. Bytes are numbers, and
-- what makes them bytes is part of the hypotheses of a theorem. Texts of exceptions are constructors,
-- texts that go to a peer are their bytes.
--
-- Fuel: the loop of `decode` over counted entries takes one round for each byte that is left, which is
-- enough when a round reads a byte; a round that reads none would not end in the source, and gives the
-- error `stuck` here. The digest of a file takes one round for each byte, and a round takes up to
-- 65,536 of them. A version string takes one round for each byte for its tags. The loop that takes
-- frames off a buffer has a round for each byte and one more, since a frame has six bytes at least; the
-- loop of `sync_make_pair_id` has a round for each pair and two more, since each round passes an id
-- that another pair has. The escape filters are one pass, with a count of the bytes to pass over.
--
-- Parameters: the calls of libzstd (`Zstd`, with its documented laws `IsZstd`), the calls of OpenSSL
-- behind a digest (`Digest`, `IsDigest`), and what the system answers to a write, a close, a read, a
-- rename, a removal and a change of a file's time (`Answers`), where a close that fails loses the end of
-- the file; for folder pairs SHA-256, the outcome of each save and of the removal of a manifest
-- (`Disk`), and which transfers succeed; for sessions the time, what a spawn gives and whether an old worker
-- stops (`Host`). What a folder holds is a tree (`Nodes`).
--
-- Not modelled: sockets, TLS, threads and locks, processes, pseudo terminals, the configuration file,
-- logging, the command line and the status screen, since they are input and output; floating point
-- rates in the telemetry; texts that only a person reads; JSON files, of which the model keeps what they
-- hold.
pub mod Base
pub mod Base64
pub mod Codec
pub mod Escape
pub mod Transfer
pub mod Session
pub mod Transport
pub mod Version
pub mod Names
pub mod Sync
pub mod Tests

