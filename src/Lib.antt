-- ===== src/Lib.antt =====
-- Verification of the Cortex STT server (cortex-stt/src), a Home Assistant app that turns speech
-- into text with several models. Requests come in over HTTP; a transcription takes an engine from
-- the pool of its model, which the engine manager loads and evicts; models are downloaded, listed
-- and deleted by their Variant keys; a long transcription is a job that its client polls;
-- recordings are kept by a retention policy and served in byte ranges. Stored settings win over the
-- options of a start.
--
-- The files and the code that they model, with paths from cortex-stt/src:
--   Common and Common/: what the library shares: Boolean tests and lists by native numbers, maps
--     as lists of entries (a HashMap with its iteration order), the stable sort, texts as bytes.
--   Jobs and Jobs/: job.rs. `JobStore` is the map under its one lock; `insert`, `complete`,
--     `fail`, `cancel`, `remove` and `sweep` are the methods of that name, and a `Call` is one of
--     them under its lock, so that a list of calls is an interleaving. `sweep_locked` is in two
--     passes, the time to live (`is_fresh`) and the capacity (`capacity_pass`).
--   Retention and Retention/: retention.rs. `select_to_delete` and a function per policy; the
--     loop over the sizes is `drop_until`.
--   Variants and Variants/: model/installed.rs, `VariantKey::parse` and `as_key`. These keys are
--     what the download manager's map and the progress board are keyed by.
--   Downloads and Downloads/: model/download_manager.rs and model/progress.rs. `DownloadQueue` is
--     the state under one lock; `claim`, `claim_next` and `finish` change it. Downloads/Manager
--     adds the board, the cancel tokens and the `.part` files, and gives `cancel` in the three
--     phases between which its locks are released; an `Action` is one critical section.
--   Downloads/Task and Downloads/Task/: model/download.rs. `download_task` goes over the server's
--     replies, `transfer` appends a stream to the `.part` file, `verify` and `install` are the end.
--   Engine/Pool and Engine/Pool/: engine/pool.rs. `take_permit` and `take_index` are the two
--     steps of `acquire`, `return_index` and `return_permit` those of a guard's drop;
--     `with_engine` runs a call with its panic caught.
--   Engine/Manager and Engine/Manager/: engine/manager.rs. `reserve_slot` with its eviction loop
--     `make_room`; a load is `load_begin`, `load_land` and `drop_reservation`, since other calls
--     come in while a pool is built, and Engine/Manager/Flight has their interleavings;
--     `load_model` and `acquire_traced` are those of a load or an acquire alone; `idle_tick` is a
--     turn of the idle watcher.
--   Range and Range/: api/range.rs. `parse` reads the header, `audio_response` answers.
--   Catalog and Catalog/: model/catalog.rs, model/catalog_data.rs and what model/installed.rs and
--     model/types.rs say of a Variant. `resolve_variant`, `delete_variant`, `variant_infos` and
--     `summarise`, in Catalog, Catalog/Listing and Catalog/Summary.
--   Settings and Settings/: settings.rs, and what config.rs and main.rs make of the settings at a
--     start. `resolve` is `EffectiveConfig::resolve`; `startup` is the choice of the pre-loaded key.
--   Rendering and Rendering/: text/mod.rs and text/mandarin.rs. `parse` is `Locale::parse`;
--     `for_language` gives the one script conversion that a renderer may hold.
--   Errors and Errors/: error.rs, `AsrError` with its `status`, `code` and `related_id`; `Result` is
--     the result that fallible code of the other parts returns.
--   Eval and Eval/: eval/mod.rs with the statements of eval/store.rs. `Eval` is the tables and the
--     audio files; `capture`, `discard_pending` and `promote`, and in Eval/Samples
--     `set_reference`, `delete_sample`, `delete_samples`, `judge` and `unjudge`, are the methods.
--     `Io` says of each statement of a call, by its number, whether it succeeds.
--   Eval/Runner and Eval/Runner/: eval/runner.rs. `execute` is the loop over candidates and samples,
--     with a `Load` per candidate and an `Attempt` per sample that say what comes of each;
--     other requests use the engines meanwhile, so what is resident after a load or a sample is part
--     of these; Eval/Runner/Slot has `start`, `cancel`, `delete_run` and the end of a run's task in
--     its three steps: its row, its name, the slot.
--   History and History/: history/mod.rs and the statements of history/store.rs. `History` is the
--     table of rows, the audio files by name and the count of notices; `create`, `delete`,
--     `delete_many`, `delete_all`, `drop_audios` are the methods; History/Sweep has the retention
--     sweep with its candidates; a `Step` is one call. `Io` says which removals, reads and writes
--     succeed.
--   Transcriber and Transcriber/: transcriber.rs and api/stream.rs. Transcriber has the data, the
--     input limit and what is recorded (`save_to_history`, `on_failure`): each record goes to
--     `create` of History, whose failure is only logged; Transcriber/Batch is
--     `transcribe`; Transcriber/Session is `open_stream` and the methods of `StreamSession`, the
--     drop included; Transcriber/Stream is the socket's loop, whose frames are a list, each with
--     what the engine's call for it comes to (`Call`: a result, or a task that is lost). The task
--     that records the drop of a session is taken to run at once, if there is a runtime.
--
-- Conventions. Numbers are native; where the source has a `u64` that may wrap or saturate, that
-- is written out (`sum_sizes`, `limit_bytes`, `digits_from`). Times are numbers of a clock's
-- smallest unit and are arguments of the calls. A panic is `none` of an Option. A lock is a
-- critical section, one step of a run. Only `make_room` and `decimal_on` run on fuel: the loop of
-- `reserve_slot` is given as many turns as there are pools, each of which evicts one
-- (Engine/Manager/Reserve), and a number is printed with one more turn than its value, each of
-- which divides it by ten (Range/Decimal).
--
-- Parameters: chrono's conversion of a duration (Jobs), reading of a timestamp and subtraction of
-- days (Retention), what each call of `create` comes to, its id and its time (Transcriber), the
-- engines and the factory (Engine), the vendored catalog (Catalog), the script converter
-- (Rendering, Transcriber), the message of an error, the levels of the audio, the engine's answers
-- and whether a deadline passes first (Transcriber), whether a statement or a file operation
-- succeeds (History, Eval), the replies of a server and the checksum of a file (Downloads/Task).
--
-- Not modelled: HTTP itself and most of the HTTP layer, SQL itself (the statements of the
-- history are operations on a list of rows), the engines and their library, floating point (audio,
-- display values of a download; a type `F` where a record holds one), the web interface; and, for
-- later, the settings handler, the evaluation's listings and summaries, and the retries around a
-- download.
pub mod Common
pub mod Jobs
pub mod Errors
pub mod Eval
pub mod History
pub mod Retention
pub mod Settings
pub mod Transcriber
pub mod Variants
pub mod Downloads
pub mod Engine
pub mod Range
pub mod Catalog
pub mod Rendering
