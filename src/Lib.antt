-- ===== src/Lib.antt =====
-- A verification of the support library of the programs (src/zzlab), of the utilities (src/utils), of
-- the button library and the network test (tools, include), and of the Dante receiver application
-- (src/tests/sc6f0-dante-rx.cpp and the headers beside it).
--
-- The support library has the test kit, with which a program takes objects of the qcap2 library and puts
-- what gives them back on a stack; statistics, colour and memory helpers; and the reading of numbers and of
-- the environment. The utilities are built on it: each has a menu that runs test cases.
--
-- The receiver takes an H.264 stream and audio periods from the Dante AV-H library. Access units go
-- through the video sink (`rx_video_sink_push`, which counts what a NAL search finds) or straight to
-- the decoder (`rx_video_feed_decoder`); audio periods go to ALSA through a queue of whole frames.
-- A direct mode bypasses the decoder: the notifications of the DAU service set a display mode and
-- the overlay through DRM. A transitional watchdog resets the SDI output when the FPGA reports a
-- suspicious history.
--
-- Files, and the code that they are about:
--   Prelude    names, tests, lists and machine words that the others share.
--   Pcm        src/tests/sc6f0-pcm-write-queue.h: `drain`, with the callables that write to ALSA and
--              recover from an underrun as arguments on a state. Pcm/Playback: `rx_audio_playback`.
--              The loop is recursion on the 16 attempts that the code has. Pcm/Fifo wraps the
--              callables in a log; Pcm/Liveness states the progress of a device that takes data;
--              Pcm/Sink: the start and stop of the ALSA sink with the mixer controls.
--   Resync     src/tests/sc6f0-sdi-resync-policy.h: `Policy::observe`; Resync/Watchdog:
--              `poll_sdi_resync` over runs of the main loop; Resync/OptIn: `init_sdi_resync` and
--              `known_fpga`; Resync/Reset: `reinitialize_sdi_output`, on the kernel's output. Times are uint64_t and their sums wrap; the
--              rate limit is stated for uptimes below 2^40 ms, some 34 years, up to which neither a time
--              nor a counter wraps.
--   Nal        the search for NAL units in the sink (its first 4096 bytes) and in the decoder feed.
--   Feed       `rx_h264_apply_caps`, `start_qcap_decoder_from_format`, `rx_video_feed_decoder`,
--              `submit_vdec_packet` and `start_vdec_decoder_async`. Feed/Gate has a step for each
--              section that the code runs under the decoder lock, so a path of steps is any
--              interleaving of the threads. What the decoder, the pool and the file answer is an
--              input of the steps.
--   Text       src/zzlab/ZzUtils_string.cpp and, in Text/Env, src/zzlab/ZzUtils_env.cpp.
--   RxOutput   src/tests/sc6f0-dante-rx-output.h and `is_valid_edid`; RxOutput/Properties:
--              `add_output_properties`.
--   Modeset    the choice of a display mode and the overlay's rectangle; Modeset/Apply:
--              `apply_drm_modeset` as stages, each with the early return of the code, and
--              `cleanup_ultra_direct_drm`; Modeset/Kernel: the state, the kernel's objects and its
--              answers; Modeset/Format: `dau_set_video_format` and `restore_ultra_output`.
--   Auto       the main loop of `src/tests/sc6f0-dante-rx.cpp` that shows Ultra or the decoder; Auto/Ultra: the
--              modesets of Modeset as the mixer that the loop switches.
--   Decoder    `SetupVdecAsync`, `StopVdecAsync`, `init_vdec_decoder`, the thread of
--              `start_vdec_decoder_async`, `stop_vdec_decoder` and `on_vdec_event_callback`; Decoder/Sink:
--              `start_vdec_sink` and `stop_vdec_display`.
--   Dau        the other callbacks of the DAU service, and `read_connector_edid`.
--   Kit        src/zzlab/testkit.h: a helper is an action that can fail on the calls made so far and the
--              stack of cleanups; the answers of qcap2 are a function of those calls. Kit/Handlers and
--              Kit/Buffers: the helpers; Kit/Monitor: what a list of calls owes; Kit/Session: any
--              helpers, then the flush. Kit/Layout: the planes of a frame; Kit/Mapped: their mapping;
--              Kit/Wait: `wait_for_test_finish`; Kit/Ticker: `tick_ctrl_t` and `FPSControl2`; Kit/Lock:
--              the spin lock and what is guarded by it, as a step relation over threads.
--   Apps       src/utils/sc6f0-dante-box.cpp and src/utils/qdemo.cpp. Apps/Menu: `App0::Run`; Apps/Box:
--              the test case with its two stacks, on the helpers of Kit; Apps/Box/Rates: `OnTimer`;
--              Apps/Qdemo: the calls of the demonstration.
--   Udp        tools/udptest.c: the command line, the packets, the sender and the receiver; Udp/Link puts
--              a network between them that loses packets; Udp/Report: the clock of the receiver, its
--              lines and the summaries.
--   Ticks      src/utils/zdev-ticks-stat.cpp: a sample, the search for the counters, the statistics, the
--              main loop. Ticks/Totals compares the totals with counters that do not wrap; Ticks/Main:
--              the command line, `main` and the report.
--   Tx         src/tests/sc6f0-dante-tx.cpp: `OnDmx` with the signals to the clients of the DAU service,
--              and what the service answers them.
--   Button     tools/sc6f0_button.c, include/sc6f0_button.h and tools/sc6f0_button_demo.c. The fuel of
--              `read_all` is the number of calls; one more than there are events is enough. Button/Demo:
--              the whole demonstration.
--   Zz         src/zzlab/ZzStats.cpp, ZzUtils.cpp, ZzUtils.h, ZzUtils_memory.cpp, ZzUtils_string.cpp,
--              ZzModules.cpp, ZzLog.cpp and ZzClock.cpp: statistics, pages, colours, planes, the cache of a
--              thread, the choice of frames, modules, codes of four characters, the lines of the log, and in
--              Zz/System the wrappers of system calls and `FreeStack`. The fuel of `flush` is the number
--              of functions that are called; as many as are on the stack are enough.
--
-- Conventions. Numbers are natural numbers; counters of 64 bits wrap by `add64`. A string or a buffer
-- is the list of its bytes. Floating-point rates are a type with the operations that the code uses
-- as arguments. The order of calls to the kernel is a list of calls. What the system, a library or the
-- user gives a loop is a list of rounds, over which the loop is structural recursion.
--
-- Not modelled: the libraries (qcap2, zstreamer, ALSA, libdrm, the DAU service) but for what their
-- calls answer; the log lines of the receiver; files and sockets; the start of the decoder's own
-- display; the search for connectors, CRTCs and planes; the floating-point filters and clocks and
-- the classes of src/zzlab/ZzUtils.h that are only declared there; the encoders and servers of the
-- transmitter; the other applications of src/tests.
pub mod Prelude
pub mod Apps
pub mod Auto
pub mod Button
pub mod Dau
pub mod Decoder
pub mod Feed
pub mod Kit
pub mod Modeset
pub mod Nal
pub mod Pcm
pub mod Resync
pub mod RxOutput
pub mod Text
pub mod Ticks
pub mod Tx
pub mod Udp
pub mod Zz
