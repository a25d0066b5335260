-- ===== src/Lib.antt =====
-- The native part of the stream-out application, which serves camera video and microphone audio over
-- RTSP through GStreamer, modelled function by function with the theorems that make it correct.
--
-- Parts and files. Paths are from the repository's root.
--   Base (Tests, Lists, Int, Text): tests on numbers, lists, signed integers, C string functions.
--   Streamer: app/src/main/cpp/camera2_gst_streamer.cpp.
--     Session: the static variables as one record, and the calls of GStreamer, GLib, the kernel and
--       Java that the functions make, as a list of effects in call order.
--     Server: nativeGstPipelineInit. Detect: what it reads off the pipeline text. Stop:
--       nativeGstPipelineDestroy, whose end runs without the lock. Media: on_media_configure, on_media_prepared, on_media_unprepared.
--     Video, Audio: nativePushEncodedBuffer and nativePushAudioBuffer; Buffers: their GstBuffer and array. Aac: the audio configuration.
--     Play: on_client_play_request.
--     Reports: the status reports, as far as Java.
--     Controls: flow-control callbacks, clients that come and go, keyframe requests, the setters.
--     Feedback: cres_rtsp_media_setup_sdp and pay0_add_rtcp_fb_probe.
--     Dump: the dump timer, the dump on demand, the graph files, (Dump/Walk) what a
--       dump logs, and (Dump/Files) the names of the timer's graphs.
--     Bus: on_bus_message, which Media connects.
--     Ledger: the references that each call takes and gives up. Lifetime: any sequence of the calls
--       and callbacks as a step relation; Lifetime/Failing lets starts fail to create their thread,
--       Lifetime/Serial follows the media that is alive when the main loop runs its callbacks in order, and
--       Lifetime/Statuses is what Java is told.
--     Threads: the calls that give the lock back before they have ended, cut there, and any interleaving
--       of their parts with other threads.
--   Opus (Intended, Refines): the latency probes of the same file, and the queue that they stand for.
--   Entry: app/src/main/cpp/streamout.cpp, the load and unload of the library and the status reports.
--   Product: the product table of app/src/main/cpp/csioMock.cpp and its record, of
--     app/src/main/cpp/include/csioCommonShare.h.
--   Debug: app/src/main/cpp/cam2_streamout_debug.cpp, the debug commands, and LocalConvertToUpper of
--     app/src/main/cpp/jniMock.cpp.
--   Tests: concrete sessions and frames at which the theorems are applied.
--
-- How they interact. Java pushes encoded frames; GStreamer's main loop fires the callbacks; each takes
-- the lock, reads and writes the session, and calls out. A function of the source is a function from
-- the session to the session after it and the effects. What calls outside the repository answer is an
-- argument: Boot for the constructors of the server, MediaBin for the lookups in a media, Vm for the
-- Java virtual machine, Smoothing for the products of `double` values with their rounding error.
--
-- Bounds. Words of 32 and 64 bits wrap where the source lets them (times, durations, casts); the
-- counters of clients and of pushed buffers and twice the number of channels, which are `int`, are
-- taken not to overflow. No loop needs fuel: each runs over a list, or over a number that falls;
-- the list of a walk over a pipeline is what the iterator has answered, and a list without a last
-- answer counts as the end.
--
-- Not modelled: the references to the caps and to the AudioSpecificConfig buffer, which
-- on_media_configure makes and gives up within itself (they are not among the effects); a stop
-- between the end of a start's part under the lock and its ready report (Threads takes a start as
-- one step); logging (but for the bus handler and the dumps, whose log is what they are for), the
-- socket options that are compiled out, gst_element_print_properties.cpp (a tool copied from
-- elsewhere; its call is an event), the stubs of csioMock.cpp, the other declarations of the
-- headers (the declared functions are not in the repository), gstreamer_test.cpp (not part of the
-- build), the Java application and the wire format. The code runs on 64-bit ARM alone
-- (app/build.gradle), so a `long` has 64 bits.
pub mod Base
pub mod Debug
pub mod Entry
pub mod Opus
pub mod Product
pub mod Streamer
pub mod Tests
