-- ===== src/Lib.antt =====
-- redcli, the benchmark tool of the RLE4K encoder: it rasterizes the columns of a mask file in
-- windows of row blocks, encodes each window with up to six codecs, decodes it again and compares
-- hashes.
--
-- Paths are from the root of the repository. The parts, and the files that model them:
-- - redcli/rle4k_block_pipeline.h (rle4k_row_block_queue): RowQueue, with the order of its rows
--   in RowQueue/Order.
-- - The threads of each phase in redcli/main.cpp: WorkerPool. A pool is a queue, where each
--   thread stands in its loop, and what they share; Step lets any thread make its next move.
--   Refine relates it to the sequential loop over the rows, Halt counts its steps, Size the
--   threads.
-- - deps/libraster/1.0.0/include/bitmap_info.h (inline functions) and redcli/rle4k_bitmap.h:
--   Bitmap. A char pointer is an optional list of bytes.
-- - redcli/rle4k_config.h (map_format_id) and the format codes: Format.
-- - redcli/rle4k_format_encoder.h and .cpp: Encoder; its theorems are in Outcome, RoundTrip,
--   Recovery and Levels.
-- - The registry of encoders (format_encoder_factory) and the formats of a run: Factory.
-- - redcli/rle4k_buffer_mgr.h and .cpp: BufferPool has each call as one function on the two
--   caches of a thread and the published size; Threads has the same calls cut at their accesses
--   of the atomics, with the threads in any order. Kept is on capacities, Conserves and Requests
--   on the places of a buffer, Sizes on the sizes.
-- - redcli/main.cpp (rle4k_cmd_run): the thread counts and cache sizes are Settings, and a column
--   with its windows and repetitions is Column.
-- - redcli/rle4k_stats.h: Stats, with the clock as a number of ticks.
-- - redcli/rle4k_config.h: the readers are Json (Value finds the value of a key, Entry and
--   Numbers read it), bench_config and load_config are Config and Config/Load, the text of
--   `redcli init` is Config/Builtin, and the search, creation and opening of redcli.json are
--   ConfigFile, with the commands init and edit of redcli/main.cpp. ConfigFile/Start is how a run
--   begins.
-- - redcli/main.cpp: the options of run are Cli, the console report is Report and the CSV file
--   Report/Csv, rle4k_cmd_run is Run (Collect the files, Geometry and Sizes the sizes, Accumulate
--   the sums of a format, Messages and Lines what goes to stderr, Formats the loops over formats
--   and columns, Files the loop over files, Command the whole), and main is Main.
-- - Text holds what redcli uses of std::string, atoi and stoi; Double and System are the
--   parameters for double and for the operating system, and World is the disk with what was
--   written to stdout and stderr.
-- - redcli/main.cpp (rle4k_wall_ms, cpu_us, cpu_ms and check_ms of the phases): Phase/Times, from
--   readings of the clock that are parameters; WorkerPool/Turns has the turns of the threads that
--   they measure, and Run/Times the sums over a column.
-- - Of the files of Run, Success, Code, Disk and Prepared are on whole runs, Sound (with
--   Column/Sound) on verdicts and Rectangular on the CSV file. Of those of BufferPool/Threads,
--   Owners, Kept, Served, Published, Solo and Returns are on the moves of the threads.
-- - redcli/main.cpp: rle4k_fnv1a64 is Fnv, rle4k_block_digest is Digest, rle4k_decode_payload is
--   Decode, and the three phases of a window are Phase/Raster, Phase/Encode and Phase/Decode.
--   Phase/RoundTrip puts the three phases together.
-- - Base holds the lists, options, tests and integers that all share; Tests holds tests, and the
--   theorems at concrete inputs.
--
-- How they interact: a phase hands its rows to the threads by the queue; a thread works on its
-- own row of the shared vectors. Phase 1 leaves blocks and digests, phase 2 turns blocks into
-- payloads, phase 3 decodes payloads into buffers and compares their hashes with the digests.
--
-- A run takes its settings from redcli.json, then from the options, then from the environment; it
-- collects the files, and for each file, format and column it goes through the windows, sums up,
-- reports, and writes the CSV file.
--
-- libraster, librle4k, zlib, LZO, Snappy, Zstandard and Brotli are the fields of the record
-- Libraries; what a theorem needs of them is a hypothesis (Libraries/Laws). The rasterizer, the
-- loader of DIF files, the operating system and double are parameters as well; ConfigFile/Laws
-- says what is needed of the file system.
--
-- Machine integers: int and uint32_t values wrap at 2 ^ 32, hashes at 2 ^ 64; the atomic counter
-- of the queue is its bit pattern. An int that overflows in the sizes of a run has no result. The
-- uLong of zlib is of 64 or of 32 bits. Loops over a window recur on the number of rows that are
-- left; the loop over the windows of a column has a round of fuel for each row, which is enough
-- since a window has a row at least. An exception in a thread ends the program, so the phase has
-- no result (none); a read past the end of a buffer has none either.
--
-- Texts are lists of bytes. A position is an index, with none for npos. The loop over an array of
-- numbers has a unit of fuel for each byte, which is enough since each round reads one.
--
-- The readings of the clock are parameters, in ticks of which a microsecond has a fixed number.
-- The run initializes and clears the buffer manager; the buffers of a block are allocated inside
-- libraster, so the phases have no call of it.
--
-- Not modelled: the code page of the Windows console, and what is compiled into libraster,
-- librle4k and the codecs.
pub mod Base
pub mod RowQueue
pub mod WorkerPool
pub mod Bitmap
pub mod Libraries
pub mod Format
pub mod Encoder
pub mod Fnv
pub mod Digest
pub mod Decode
pub mod Phase
pub mod Column
pub mod Factory
pub mod BufferPool
pub mod Settings
pub mod Tests
pub mod Text
pub mod Json
pub mod Double
pub mod Config
pub mod System
pub mod ConfigFile
pub mod Cli
pub mod Report
pub mod Run
pub mod Main
pub mod Stats
