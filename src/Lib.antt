-- ===== src/Lib.antt =====
-- The runtime of systemes3recomp: the serial boards of a System ES3 cabinet that a recompiled game
-- talks to, what a player holds, and the dispatch of the game's calls.
--
-- The program recompiles a game of the cabinet into a Windows executable and gives it what it asks
-- for. Two parts of the runtime are devices of their own, each behind a serial port that the game
-- opens by name, writes bytes to and reads bytes from with overlapped reads: the JVS I/O board, for
-- switches, wheel, pedals and coins, and the IC card reader. These are modelled here, with the
-- keyboard and the pad that stand in for the cabinet's switches. So is what every call of the
-- recompiled game goes through: the dispatch by guest address, and the handlers of its imports; and
-- what stands around it: the loaders that put the image where the code expects it, the server that
-- answers the game's network, and the window that shows the card.
--
-- src/runtime/jvs.c
--   Fifo.antt              out_push, out_avail, out_take: the pipe from a board to the game
--   Jvs.antt               the constants, JvsPort and the statics
--   Jvs/Frame.antt         reply and the escaping of its bytes
--   Jvs/Command.antt       handle_packet: the requests of one packet
--   Jvs/Receive.antt       consume_input: finding, un-escaping and checking packets
--   Jvs/Line.antt          finish_read and the es3_jvs_* calls
--   Jvs/Sequence.antt      seq_init and seq_tick
--   Jvs/Input.antt         input_poll, es3_coin_take and a round of jvs_ticker
--   ComName.antt           the names of ports in es3_jvs_open and es3_card_open
--   Controls.antt          the keys and the pad that are asked for
-- src/runtime/card.c
--   Card.antt              the state of the card and the reader, es3_card_tap, card_save
--   Card/Image.antt        card_format and card_load
--   Card/Mifare.antt       mifare: the card's commands
--   Card/Chip.antt         send_frame and command: the reader's commands
--   Card/Receive.antt      consume: finding frames
--   Card/Line.antt         finish_read and the es3_card_* calls
-- src/runtime/dispatch.c
--   Dispatch.antt          find and its index, dispatch_owner, es3_bind_guest, dispatch_inner
-- src/runtime/hle.c, src/runtime/hle_board.c
--   Hle.antt               the imports of the game, hle_bind, hle_bind_dll, hle_call, hle_board_note
-- src/input/es3_input.c
--   Input.antt             es3_input_poll
-- src/runtime/hle_callback.c
--   Ports.antt             hle_create_file to hle_close_handle: the file calls and the two boards
--   IoBoard.antt           the USB I/O board: ioboard_claim to hle_device_io_control
--   Callbacks.antt         es3_callback, wrap_callback_arg, wrap_callback_field, hle_create_thread
--   Callbacks/Initterm.antt run_initterm
--   Callbacks/Planted.antt es3_plant_callback
--   Callbacks/Windows.antt window_cap to hle_get_system_metrics: the game's window
--   Callbacks/Answered.antt hle_message_box, hle_load_library, hle_ip_renew, hle_dinput8_create
-- src/runtime/guest.c
--   Guest/Image.antt       guest_load: the header, the section table, the copies
--   Guest/Snapshot.antt    es3_guest_snapshot, es3_guest_resnapshot, es3_guest_diff
--   Guest/Fingerprint.antt file_fingerprint, check_image
--   Guest/Imports.antt     mb_env, guest_patch_import, the stack, and guest_load as a whole
-- src/runtime/passport.c
--   Passport.antt          the port, send_all, state_json, serve_one, and the page's reading of it
-- src/runtime/allnet.c
--   Allnet/Request.antt    serve: reading a request
--   Allnet/Reply.antt      reply_body and the response
--   Allnet/Names.antt      guest_str, the resolvers, to_loopback, the WinHTTP calls
--   Allnet/Link.antt       es3_hle_wsaioctl
-- src/runtime64/loader64.c
--   Loader64/Image.antt    the sections and es3_alloc_stack
--   Loader64/Relocations.antt  the relocations
-- src/runtime64/dispatch64.c
--   Dispatch64.antt        lookup, dispatch, dispatch_jmp, the shadow call stack and its dump
--   Dispatch64/Opened.antt es3_note_file, fr_dump and the table of handles
--   Dispatch64/Answers.antt  es3_native_call and es3_thread_shim
--   Dispatch64/Bridge.antt es3_bridge_callback
-- src/runtime/hle_native.c
--   Native.antt            es3_is_host_code, force_windowed, the handles and the x87 helpers
--   Native/Calls.antt      hle_call_native
--   Native/Names.antt      watch_init, es3_arg_string, hle_bind_native
-- Memory.antt is memory by bytes, as the loaders use it, and Text.antt the C text functions that the
-- two web servers use.
-- Prelude.antt and its children hold what all of them share. The children of a file hold the proofs
-- about it and, in Tests, runs and the theorems at concrete inputs.
--
-- How the code is read. A call on a port holds the port's lock, so a function here is one critical
-- section and takes the state to the state after it; the loops of the tickers are one round each. The
-- state that a guest call acts on is of any type, and lifted functions and handlers act on it. What the
-- code asks of Windows is an argument: the clock, whether memory is given, the handles, the keys, the
-- pad, the files and the environment. What it does to the game, filling memory and queueing a
-- completion routine, is a list of effects. A lifted function of the 64-bit runtime is what it
-- dispatches: it returns a state, or calls and goes on from the state behind the call. pcrecomp's thunks
-- are a function of the guest's address, and a forwarded import is one of the guest's registers and
-- memory. A machine-width counter keeps its wrap-around. The array of the pipe is
-- a function on indices; buffers that are filled from the front are lists, and a write past one,
-- or a shift by too much, is an outcome of its own. The stack that handle_packet may read before it is
-- written is an argument, stale.
--
-- Fuel. handle_packet takes a round for each byte of the packet, and consume_input and the reader's
-- consume one for each unread byte: each round that goes on uses a byte at
-- least. The binary search of find takes one round more than there are entries.
-- The loop of lookup halves its range, and takes one round more than there are entries; the fuel of
-- dispatch is the depth of the calls, and its theorems hold for any. A table of initialisers takes a
-- round a slot. The loop of es3_guest_diff takes a byte a round, the walk over the
-- relocations a byte of the table at least, and serve's loops a byte of the request.
--
-- Not modelled: traces and messages, threads, sockets and locks as such, dump_blowfish of
-- src/runtime/card.c, strtoul, which is a parameter of the timetable, the windows, the relaunch and
-- the page protection of src/runtime/guest.c, the inet_addr and the threads of src/runtime/allnet.c,
-- the imports of src/runtime64/loader64.c, the watchdog, the shared block and the I/O library's memory of
-- src/runtime64/dispatch64.c, the calls of COM interfaces in src/runtime/hle_native.c, the TEB and
-- the exit reports of src/runtime/hle_callback.c, and the parts of the runtime that the
-- lists above do not name, among them the crash reports, picture capture and the traces.
pub mod Allnet
pub mod Callbacks
pub mod Card
pub mod ComName
pub mod Controls
pub mod Dispatch
pub mod Dispatch64
pub mod Fifo
pub mod Guest
pub mod Hle
pub mod Input
pub mod IoBoard
pub mod Jvs
pub mod Loader64
pub mod Memory
pub mod Native
pub mod Passport
pub mod Ports
pub mod Prelude
pub mod Text
