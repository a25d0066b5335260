-- ===== src/Streamer/Detect.antt =====
-- What nativeGstPipelineInit of app/src/main/cpp/camera2_gst_streamer.cpp reads off the pipeline
-- text: the codecs, the stream mode and the audio format.
pub mod Tokens
use my_stream_out_app.Base.{ℕ, Bool, true, false, ◌||◌, Option, none, some, drop, if◌then◌else◌}
use my_stream_out_app.Base.Int.{ℤ, pos}
use my_stream_out_app.Base.Text.{Text, codes, strstr, contains, atoi}
use my_stream_out_app.Streamer.Session.{
  CodecType, h264, h265, StreamMode, video_only, audio_only, video_and_audio, Format,
}

unfoldable pub detect_codec : Text → CodecType
unfolding strstr
detect_codec p =
    if contains p (codes "h265")
      || (contains p (codes "hevc") || (contains p (codes "H265") || contains p (codes "HEVC")))
    then h265
    else h264

unfoldable pub detect_mode : Text → StreamMode
unfolding strstr
detect_mode p =
    let has_video = contains p (codes "name=src") in
    let has_audio = contains p (codes "name=audio") in
    if has_video then (if has_audio then video_and_audio else video_only) else audio_only

-- `atoi` of what follows the first occurrence of a token, or the default.
unfoldable pub number_after : Text → ℕ → ℤ → Text → ℤ
unfolding strstr
number_after token skip default p = elim (strstr p token) [
  | none ↦ default
  | some r ↦ atoi (drop skip r)
]

unfoldable pub detect_format : Text → Format
unfolding detect_codec detect_mode number_after
detect_format p = record {
  codec_type = detect_codec p;
  stream_mode = detect_mode p;
  audio_sample_rate = number_after (codes "rate=(int)") 10 (pos 44100) p;
  audio_channels = number_after (codes "channels=(int)") 14 (pos 1) p;
  audio_raw_pcm = contains p (codes "opusenc");
}
