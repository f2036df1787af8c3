-- ===== src/Lib.antt =====
-- A model of how the music player daemon serves a client: its input, its command lists, the commands, the
-- playlist and the play queue that they change, and its output, with the theorems that make them correct.
--
-- The bytes of a client are collected in a buffer (src/fifo_buffer.c) and cut into lines
-- (src/client_read.c). A line reaches `client_process_line` (src/client_process.c), which runs it or keeps
-- it in a command list. `command_process` (src/command.c) splits a line with src/tokenizer.c, looks its
-- command up, checks the request and calls a handler. What is written to the client is sent or deferred
-- by src/client_write.c; an idle client is told of events by src/client_idle.c. The handlers work on
-- the playlist (src/playlist.c, src/playlist_edit.c, src/playlist_control.c), which keeps the current and
-- the queued song while the songs move in the play queue (src/queue.c, src/queue.h).
--
-- Base: shared names, Boolean tests, C's 32-bit `unsigned`, arrays, counted loops, and the pigeonhole
--   argument.
-- Queue: `struct queue`, its reading functions, `queue_next_order` and the version counter.
--   Queue/Edit: the operations that add, remove and reorder songs. Queue/Random: shuffling, with GLib's
--   generator as a parameter of which its documented range is assumed. The other files below Queue hold
--   the invariant (Inv) and the theorems; Shift, Place, Relocate, Range, Opened and Gap their lemmas.
-- Playlist: `struct playlist` and src/playlist.c. Playlist/Edit, Move, Shuffle and Control: the other two
--   files.
--   Inv is the invariant; Reshuffle, Update, Append, Correct, Swap, Remove, Delete, DeleteRange, Moved,
--   Moves, Modes, Random and Next hold the theorems on single operations; Playing, Syncing, Starting,
--   Keeping, Shuffling and Answering those that an operation returns and keeps the invariant. Requests
--   is the type of all operations and of the playlists that they reach, Reached the theorem on these.
-- Tokenizer: src/tokenizer.c; the character classes and `g_strchug` are GLib's, a parameter.
--   Words and Quoted hold its theorems.
-- Client: src/client_process.c; what a command does is a parameter. Client/Feed is about
--   lines that go into a list, Lists about running it, Sizes about the count of the sizes.
-- Fifo: src/fifo_buffer.c; Fifo/Refine shows a queue of bytes.
-- Reader: src/client_read.c; GLib's channel, its `g_strndup` and `g_strchomp` and what a
--   line does are parameters.
--   Serve is the reference, a stream that is read byte by byte; Lines and Reading hold the theorems.
-- Output: src/client_write.c; GLib's channel is a parameter, of which it is assumed that it takes a
--   beginning of what it is given, whatever its status. Writes, Buffers, Direct,
--   Emptying and Delivery hold the theorems, from single writes up to `client_write`.
-- Idle: src/client_idle.c and the flags of src/idle.c; Events holds the theorems.
-- Commands: the part of src/command.c that finds and checks a command; Table is its table, and Run
--   `command_process`, which splits a line and runs its command. Numbers reads
--   arguments, with `strtol` and `strtoul` as parameters and a `long` of 64 bits; Handlers are the
--   handlers that change the playlist. Order, Lookup, Requests, Checked and Process hold the theorems on
--   commands. Asked says what each call asks of the playlist and what arguments it rejects; Arguments,
--   Handled and Keeping hold the theorems on handlers.
-- Tests: the theorems at concrete inputs.
--
-- A function of the source has its name here, without the prefix of its component; some of the playlist
-- have a name that tells them from those of the queue, and a comment with the name in the source. An
-- array is a function on the indices; positions and ids that the source marks by -1 are `none`. Numbers
-- are natural numbers; where an `unsigned` can wrap around, `add_uint` and `sub_uint` do. Sums of
-- positions do not wrap in a valid queue, whose ids fit an `unsigned`. Arrays are total functions:
-- a read that the source would make outside an array is not detected, and gives what the function has
-- there. A function of the playlist returns `none` where the source would go on with an order number or a
-- position of -1, where an assertion of it fails.
-- The player is a snapshot that a function reads and a list of the calls made, the last one first; idle
-- events are a list likewise.
--
-- The search for an id has as fuel the number of ids, max_length * QUEUE_HASH_MULT, and there is always a
-- free one among so many. The binary search has as fuel one round more than there are commands, the loop
-- over lines the number of bytes in the buffer, and the loop of `client_write` the number of bytes to write:
-- every round makes the segment, the buffer or the rest shorter. The other loops count up or down between
-- bounds that are known when they start.
--
-- Not modelled: the threads of player and decoders, plugins, the database and its update, tags, stored
-- playlists and stickers, configuration and sockets, which are I/O or glue to libraries; the handlers of
-- src/command.c that only call those, and formatted printing.
pub mod Base
pub mod Client
pub mod Commands
pub mod Fifo
pub mod Idle
pub mod Output
pub mod Playlist
pub mod Queue
pub mod Reader
pub mod Tests
pub mod Tokenizer
