-- ===== src/Lib.antt =====
-- bergamot: a Usenet downloader. A server is given NZB files, which list the articles of each file
-- of a download; a coordinator keeps the queue of downloads and chooses the article to fetch next;
-- connections speak NNTP with the news servers and hand back the bodies of articles; when every
-- file of a download is complete it is post-processed and filed in the history.
--
-- The parts that are modelled, and where:
--   * Nntp/Response, Nntp/Machine: crates/bergamot-nntp/src/machine.rs, the protocol without I/O.
--     `NntpMachine` is the struct, with its queue of outputs as a list; `request_…`, `poll_output`
--     and `handle_input` are its methods. Each response handler of the match in `handle_input` is a
--     function of its own (`greeting`, `auth_user`, …, `compress_response`), and `dispatch` is the
--     match. The two arms for BODY responses, which are the same text, are one function.
--     Machine/Session has sessions as a step relation, Machine/Turns the read requests,
--     Machine/Secrets authentication, Machine/Body the transfer of a body.
--   * Nntp/Scheduler: crates/bergamot-nntp/src/scheduler.rs, which server the next article is fetched
--     from. `Scheduler/Choice` and `Scheduler/Selection` are about `select_server`,
--     `Scheduler/InFlight` and `Scheduler/Flights` about the scheduler as a record of the articles in
--     flight. `server_scheduler` makes it an instance of the interface that the coordinator calls.
--   * Nzb: crates/bergamot-nzb/src. Nzb/Parser and Nzb/Ends are `handle_start` and `handle_end`,
--     Nzb/Info the loop of `parse` with `build_nzb_info`, Nzb/Subject what is read off subjects and
--     names with the hashes, Nzb/Names `ensure_unique_filenames`. Info/Good, Info/Kept and
--     Info/Complete are about what `parse` gives for any events, Info/Document, Info/Elements,
--     Info/Metas and Info/RoundTrip about documents that are laid out as the format asks.
--   * Nntp/Pool: crates/bergamot-nntp/src/pool.rs, the servers of the pool, their idle connections and
--     their back-off; Pool/Fetch is `fetch_article_targeted` with both of its strategies and
--     `set_server_active`. Pool/Fallback and Pool/Target are about the strategy with a target,
--     Pool/Backoff about both.
--   * Server/Access: crates/bergamot-server/src/auth.rs and the checks that the routes of server.rs
--     make. Access/Evidence and Access/Granted are about who is let in, Access/Routes about which
--     calls go through.
--   * Feed: crates/bergamot-feed/src/lib.rs, the filters; Feed/Evaluate whether a filter takes an item,
--     Feed/Coordinator the history and coordinator.rs. Feed/Once is about the history.
--   * Queue/Types, Queue/Nzb: the data model, crates/bergamot-core/src/models.rs.
--   * Queue/State: the coordinator's state, crates/bergamot-queue/src/coordinator.rs, with the types
--     of command.rs, status.rs and error.rs that it works on.
--   * Queue/Health, Queue/Complete, Queue/Download: what happens when the download of an article
--     ends (`handle_download_complete` and all that it calls).
--   * Queue/Select: which article comes next (`next_article`, by strategy).
--   * Queue/Slots: `try_fill_download_slots` and `next_assignment`.
--   * Queue/NewNzb, Queue/Ingest: `ingest_nzb` and `check_duplicate`, from the bytes of the file to the
--     queue; they call the parser of Nzb.
--   * Queue/Post: the reports of post-processing and `seed_state`.
--   * Queue/Listings: what commands list, `build_snapshot` and the others, with their types in
--     crates/bergamot-queue/src/status.rs.
--   * Diskstate: crates/bergamot-diskstate/src/lib.rs, which articles of a file are downloaded, as it
--     is kept on disk, with its log. Diskstate/Marks is about the marks, Diskstate/Log about the log
--     and crashes. How a state is written is a parameter (`StateFormat`).
--   * App: crates/bergamot/src/app.rs, `restore_queue` without the history. App/Saved is about a file
--     that is saved and restored.
--   * Queue/Commands, Queue/Loop: command.rs's `QueueCommand`, `handle_command`, and the loop of `run`
--     as a step relation: a round is a command or the refill tick, and then the slots are filled.
--     Loop/Ids, Loop/Outcomes, Loop/Edits, Loop/Filed and Loop/Numbered are about the ids of downloads.
--   * Queue/Edit, Queue/History: the edits of the queue and of the history (`apply_edit`, `move_nzb`,
--     `history_redownload` and its siblings).
--   * Yenc/Line, Yenc/Fields, Yenc/Decoder, Yenc/Cache: crates/bergamot-yenc/src. `decode_yenc_line`
--     with its fast path over sixteen bytes at a time, the fields of header lines, `YencDecoder`, and
--     `ArticleCache`. Line/Loops compares the loops, Line/Encode has an encoder by the yEnc
--     specification, Decoder/Segments and Decoder/Transfer are about whole articles.
--   * Prelude, Text: lists, maps and predicates; Rust's strings as lists of code points.
--
-- How code becomes definitions:
--   * A method that changes `self` is a function to the new state, beside its answer if it has one;
--     an operation that fails returns the state that it leaves behind.
--   * Counters, sizes and ids are natural numbers without a bound: u32 and u64 counters are taken
--     not to overflow. `saturating_sub` is subtraction that stops at 0. `parse_uint` keeps the limit
--     of the type that it parses into.
--   * A HashMap is an association list; a text is the list of its code points, so that byte lengths
--     and slices at bytes are computed, and a slice inside a character is a panic (`panicked`, and
--     `none` of `handle_input`). A path is a text.
--   * Times are seconds, in the pool of servers milliseconds; the readings of the clocks are arguments
--     (`now`, `clock`).
--   * Which writes of `flush_file` and which changes on disk of `DiskState` fail is an argument
--     (`fails`). A state is written at once, by a file that is renamed; to make bytes of it does not
--     fail (`StateFormat`).
--   * The coordinator reaches the server scheduler through the five calls that it makes
--     (`SchedulerOps`); the completion channel is the list of notices that it was offered, and what
--     the assignment channel answers to each send is an argument. The
--     product of floating-point numbers in `calculate_critical_health` is a parameter (`Scaling`):
--     it is assumed that a share of n is at most n, and the whole of n is n. The scheduler's
--     floating-point numbers are a parameter (`Floats`): it is assumed that numbers other than NaN
--     are ordered, that a positive number is not at most 0, that a product of positive whole numbers
--     is positive, and that a whole number divided by a positive number is no NaN.
--   * The XML reader hands the parser a list of events, up to the end of the input (`Readers`); gzip,
--     the regular expressions and the standard hasher are parameters (`Readers`, `Libraries`). What
--     the file system gives for a path is an argument (`NzbSource`), and so is the text in which an
--     error of the parser is shown. The sums of sizes in the parser wrap around at 2^64.
--   * What the network, the permits and the clock give an attempt at a server is an argument
--     (`Answers`), and so is the order in which parallel fetches end; a fetch runs with no other fetch
--     in between. Base64 and HMAC-SHA256 are a parameter (`Crypto`): what is encoded decodes and has
--     no dot in it, and a signature verifies under its key. Regular expressions and sizes as
--     floating-point numbers are a parameter of the feed filters (`Matching`).
--   * Texts that the machine builds for error events are kept as their parts (`Message`).
--   * The checksum library is a parameter (`Hashing`): a checksum fed in pieces is that of the pieces
--     put together. The arithmetic of `YencDecoder` on u64 wraps around, as in a release build.
--   * Every loop is structural recursion on a list, except three, which run on fuel and are proved to
--     end with a result: the one over chunks in `decode_yenc_line` (one more than the length of the
--     line), the search for a free file name (one more than the names in use) and the filling of
--     download slots (one more than the articles that were not tried).
--
-- Not modelled: the reply to `GetSchedulerStats`, sockets, the speed limiter, PAR2, unpacking, the
-- task scheduler, the RSS reader, configuration, the other files on disk, and the HTTP server with
-- its web interface. Some of these are logic of their own and may follow; I/O is not.
pub mod Prelude
pub mod Text
pub mod Nntp
pub mod Queue
pub mod Yenc
pub mod Nzb
pub mod App
pub mod Server
pub mod Feed
pub mod Diskstate
