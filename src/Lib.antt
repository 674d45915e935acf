-- ===== src/Lib.antt =====
-- proton-sdk-rs: models and theorems about the core of the two crates, crates/proton-sdk (HTTP
-- client, errors, caches) and crates/proton-drive-rs (revisions, events, uploads, batch moves,
-- photo transfers, client helpers, entity cache, single flight).
--
-- How the program is put together. The drive client asks the API through the HTTP client, which
-- retries (`send_retrying`, `send_unrepeatable`), checks the response envelope (`parse_buffered`)
-- and refreshes the session's tokens on a 401. A file's content is a revision: the revision
-- transport lists its blocks in pages and ranks the sources of their sizes, the revision reader
-- plans, fetches and splices blocks and re-lists them when their URLs expire. An upload encrypts
-- blocks, gets a target for each, stores them in any order and seals a manifest over their digests.
-- The event manager polls a volume's events from a cursor, invalidates caches and publishes the
-- events. Batch operations send links in chunks and turn the aggregate answer into one outcome for
-- each node. Nodes are cached in an entity cache over a repository, and concurrent loads of a node
-- share one flight.
--
-- Files, and the code they are about:
--   Base            shared names; Boolean tests and case splits (Base/Tests), lists on native numbers
--                   (Base/Lists), integers (Base/Int), the stable sort (Base/Sort), texts (Base/Text),
--                   maps and sets of texts (Base/Maps)
--   Errors          crates/proton-sdk/src/error.rs and api.rs: ProtonError, ProtonApiError,
--                   ResponseCode, is_retriable; Errors/Codes: from_raw
--   Http            crates/proton-sdk/src/http.rs: Replay, Buffered
--   Http/Retry      send_retrying, next_step for one round, backoff, parse_retry_after_secs; proofs in
--                   Budget (counts and delays), Resend (when a request is sent again); Unrepeatable
--                   has send_unrepeatable
--   Http/Envelope   parse_buffered, api_error, the check of get_storage_blob
--   Http/Session    the tokens and refresh_access_token_now; Rotation: several tasks that refresh;
--                   Send: send and handle_unauthorized
--   Transport       crates/proton-drive-rs/src/transport.rs: list_blocks; Listing: its proofs; Sizes:
--                   rank_block_sizes; Sizes/Standard: files cut into standard blocks; Renewal:
--                   BlockSession, get and PublicLinkSession of public_link.rs
--   Revision        crates/proton-drive-rs/src/revision.rs: plan_blocks, splice_block, read_at; Plan and
--                   Read: their proofs; Targets: BlockTargets, with Targets/Recovery
--   Events          crates/proton-drive-rs/src/events.rs and client.rs: to_drive_event and
--                   enumerate_events; Drain: its proofs; Manager: the loop of event_manager.rs;
--                   Manager/Start: resolve_start_cursor and the retry delay
--   Upload          crates/proton-drive-rs/src/client.rs: verification_token (Token), assemble_manifest
--                   (Manifest), the targets of upload_batch (Targets, Targets/Own), upload_one_block
--                   (Block, Block/Attempts), read_full_block and encrypt_content_blocks (Content; proofs in
--                   Cut, Added, Rounds and Loop), and the way back through the reader (Content/RoundTrip)
--   Batch           crates/proton-drive-rs/src/client.rs: aggregate_outcomes; maps by uid (Uids); trash,
--                   restore and delete (Actions); moves (Moves): take_move_batch, submit_move_batch and
--                   submit_moves, prepare_moves (Moves/Prepare), move_nodes (Moves/Report); the other
--                   files below Moves are proofs
--   Photos          crates/proton-drive-rs/src/client.rs: transfer_photo_payload; the types of the requests
--                   (Wire), the requests and their answers (Transfer), the rounds of transfer_photos
--                   (Rounds); proofs in Transfer/Settled, Rounds/Batches, Loading and Ends
--   SingleFlight    crates/proton-drive-rs/src/single_flight.rs as a relation of steps; proofs in Loads,
--                   Shared and Race
--   Entities        crates/proton-drive-rs/src/cache.rs and invalidate_caches_for_event of client.rs;
--                   Forgets: their proofs
--   Client          crates/proton-drive-rs/src/client.rs: get_available_name and alternate names (Names),
--                   path_segments and join_node_path (Paths), group_by_volume (Volumes),
--                   resolve_parent_keys (ParentKeys; proofs in Resolved), parse_public_link_url and
--                   split_link_password (Links), get_node_hierarchy, get_node_path and
--                   get_node_by_path (Hierarchy; proofs in Chain and Located), context_share_id and
--                   run_context_share_mutation as a relation of steps (Context)
--   Cache           crates/proton-sdk/src/cache.rs: InMemoryCacheRepository over an LRU; Index: the
--                   tag indexes; Valid: the invariant; Entries: set, get, remove_by_tag; Repository: the
--                   trait and its laws; Encrypted: EncryptedCacheRepository, with its proofs in Lawful
--   Tests           the theorems at concrete inputs
--
-- How code is modelled. A `Result` of the source is `Result` of Errors, whose error is a
-- ProtonError; the message of an InvalidOperation is the literal part of its format string. Shared
-- mutable state behind a lock is passed explicitly, and the calls that a lock serializes run one
-- after another in the order in which they take it. What the network, the storage and the ciphers
-- answer is an argument, by attempt or request where it may change. Where tasks interleave at
-- their awaits (SingleFlight, Client/Context), the code between two awaits is a step of a
-- relation; the mutex around the slots of SingleFlight is held within one step only and is left
-- out. A HashMap is an association list, and a name or a path where its characters matter is a
-- list of code points. Machine integers keep their wrap-around or saturation, the i32 and i64 of
-- Upload/Content by their bits, with one exception: the page index of `list_blocks` and the number
-- of the block that it starts a page with are unbounded, while in the source they are i32, which
-- is enough for a table of fewer than 2^31 - 400 blocks. `usize` is 64 bits wide, and times are
-- numbers of nanoseconds.
--
-- Fuel. A loop without a structural bound takes fuel and returns an Option. `send_retrying` and
-- `send_unrepeatable` get one unit for each attempt that the policy allows, and `upload_one_block`
-- one for each of its three attempts: their theorems show that this is enough. `list_blocks` needs
-- one unit more than there are blocks, `enumerate_events` one more than there are pages before the
-- last, `resolve_start_cursor` and `get_available_name` one more than there are attempts without an
-- answer; their theorems take that as a hypothesis, since the source does not bound these loops. A
-- run of moves and a transfer of photos need more than twice as many units as they have nodes, each
-- retried at most once; the loop of `encrypt_content_blocks` one more than the content has bytes;
-- `get_node_hierarchy` more than the tree has nodes.
--
-- Not modelled: OpenPGP, hashing and base64, which are calls of other crates; the building of
-- requests, telemetry and logging; how the permits of the client-wide block limit are shared;
-- `get_by_tags`; sharing, devices and most of the public links and photos; accounts, sessions and
-- downloads to files. The LRU of the cache is another crate's: its operations are an argument, and
-- its documented behaviour is the hypothesis `IsLru`, which the tests show of a cache of one entry.
pub mod Base
pub mod Errors
pub mod Http
pub mod Transport
pub mod Revision
pub mod Events
pub mod Upload
pub mod Client
pub mod Cache
pub mod Batch
pub mod SingleFlight
pub mod Entities
pub mod Photos
pub mod Tests
