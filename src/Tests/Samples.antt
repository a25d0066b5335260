-- ===== src/Tests/Samples.antt =====
-- A pipeline, a media and a session with numbers for the handles.
use my_stream_out_app.Base.{◌+◌, ◌*◌, ◌/◌, true, false, some, arith}
use my_stream_out_app.Base.Int.{pos}
use my_stream_out_app.Base.Text.{Text, codes}
use my_stream_out_app.Streamer.Session.{Session, Timeline, initial, no_handles, no_timeline}
use my_stream_out_app.Streamer.Video.{Frame, Memory}
use my_stream_out_app.Streamer.Audio.{Smoothing}
use my_stream_out_app.Streamer.Media.{MediaBin}
use my_stream_out_app.Streamer.Server.{Boot}

-- 0.15 a + 0.85 b, rounded down.
abbrev pub mix15 : Smoothing
mix15 = record { mix = λ a b. (15 * a + 85 * b) / 100; mix_bounds = λ a b h k. omega arith }

abbrev pub pipeline_text : Text
pipeline_text =
    codes "appsrc name=src ! h265parse appsrc name=audio rate=(int)48000 channels=(int)2"

abbrev pub full_boot : Boot
full_boot = record {
  pipeline = some pipeline_text;
  port = pos 8554;
  context = some 1;
  loop = some 2;
  server = some 3;
  factory = some 4;
  mounts = some 5;
  server_source = some 6;
  periodic_source = 10;
  thread_ok = true;
}

abbrev pub media : MediaBin
media = record {
  bin = some 20;
  sysclock = 21;
  src = some 22;
  pay0 = some (23, codes "rtph265pay");
  pay0_src_pad = some 24;
  bin2 = some 20;
  audio = some 25;
  aenc = some 26;
  aenc_sink_pad = some 27;
  aenc_src_pad = some 28;
}

-- A key frame, and the frame 33 ms after it.
abbrev pub key_frame : Frame
key_frame = record {
  offset = 1;
  size = 2;
  pts_us = pos 1000000;
  is_key_frame = true;
  is_csd = false;
}

abbrev pub next_frame : Frame
next_frame = record {
  offset = 0;
  size = 2;
  pts_us = pos 1033000;
  is_key_frame = false;
  is_csd = false;
}

abbrev pub bytes : Memory
bytes i = 7 + i

-- A session that streams both ways.
abbrev pub live : Session
live = record initial {
  handles = record no_handles {
    server = some 3;
    loop = some 2;
    context = some 1;
    full_pipeline = some 9;
    appsrc = some 22;
    audio_appsrc = some 25;
  };
  flags = record initial.flags { pipeline_dot_dump_enable = true };
}

-- The same session when its appsrc has enough.
abbrev pub full_live : Session
full_live = record live { gates = record live.gates { need_data = false } }

-- A timeline one second in, with an offset of 200 ms.
abbrev pub running : Timeline
running = record no_timeline {
  pts_base = 1000000000;
  last_video_pts_ns = 1000000000;
  av_offset_ema = 200000000;
}
