-- ===== src/Streamer/Lifetime/Typed.antt =====
-- The numbers of the session as values of their C types, over a lifetime.
pub mod Stamps
pub mod Pushes
pub mod Steps
use my_stream_out_app.Base.{
  ℕ, zero, suc, ◌+◌, ◌-◌, ◌^◌, ◌<◌, ◌≤◌, ◌≡◌, inl, inr, refl, ap, ◌∙◌, sym, Bool, true, false,
  Option, none, some, List, [], ◌∷◌, arith, length, take, drop, Option-cases, Bool-cases,
}
use my_stream_out_app.Base.Int.{ℤ, pos, pos_part, neg_part, to_int32}
use my_stream_out_app.Base.Text.{Text, strstr, strtol}
use my_stream_out_app.Streamer.Session.{Session, Timeline, StreamMode}
use my_stream_out_app.Streamer.Detect.{number_after, detect_format}
use my_stream_out_app.Streamer.Media.{
  MediaBin, within, has_audio, find_video, install_video, configure_audio, configure_commit,
  configure_found, on_media_configure,
}
use my_stream_out_app.Streamer.Play.{
  PlayRequest, Media, cache_pipeline, play_pipeline, play_in, on_client_play_request,
}
use my_stream_out_app.Streamer.Server.{Boot, set_timer, commit, gst_pipeline_init}
use my_stream_out_app.Streamer.Server.Outcomes.{gst_pipeline_init_ind}
use my_stream_out_app.Streamer.Lifetime.Typed.Stamps.{IsTimed, no_timeline-IsTimed}

abbrev pub IsInt32 : ℤ → Type 0
IsInt32 z = (pos_part z < 2 ^ 31) × (neg_part z ≤ 2 ^ 31)

-- The 64-bit times, the 32-bit counter, a dump interval that is not 0, a directory that fits its buffer
-- with the zero at the end, and the two `int` of the audio format.
pub record IsTyped (s : Session) : Type 0 where
  pub timed : IsTimed s.timeline
  pub dump_word : s.dot_dump_count < 2 ^ 32
  pub interval_set : 0 < s.flags.pipeline_dump_interval_seconds
  pub dir_fits : length s.flags.pipeline_dot_output_dir < 512
  pub rate_int : IsInt32 s.format.audio_sample_rate
  pub channels_int : IsInt32 s.format.audio_channels

-- The numbers of two states are the same.
abbrev pub Alike : Session → Session → Type 0
Alike s s' =
    (s'.timeline ≡ s.timeline)
    × (s'.format ≡ s.format)
    × (s'.flags ≡ s.flags)
    × (s'.dot_dump_count ≡ s.dot_dump_count)

pub Alike-IsTyped : (s s' : Session) → Alike s s' → IsTyped s → IsTyped s'
Alike-IsTyped s s' (a, b, c, d) h = record {
  timed = rw (a) h.timed;
  dump_word = rw (d) h.dump_word;
  interval_set = rw (c) h.interval_set;
  dir_fits = rw (c) h.dir_fits;
  rate_int = rw (b) h.rate_int;
  channels_int = rw (b) h.channels_int;
}

to_int32-IsInt32 : (z : ℤ) → IsInt32 (to_int32 z)
to_int32-IsInt32 z = ground arith

number_after-IsInt32 :
    (token : Text) (skip : ℕ) (default : ℤ) (p : Text)
    → IsInt32 default
    → IsInt32 (number_after token skip default p)
unfolding number_after
number_after-IsInt32 token skip default p h = elim (Option-cases (strstr p token)) [
  | inl e ↦ simp (e, number_after) h
  | inr (r, e) ↦ simp (e, number_after) (to_int32-IsInt32 (strtol (drop skip r)).0)
]

pub length-take : (n : ℕ) (s : Text) → length (take n s) ≤ n
length-take zero s = omega arith
length-take (suc n) [] = omega arith
length-take (suc n) (c ∷ s) = omega (arith, length-take n s)

set_timer-Alike : (s : Session) (b : Boot) (c : ℕ) → Alike s (set_timer s b c).0
unfolding set_timer
set_timer-Alike s b c = ground arith

pub gst_pipeline_init-IsTyped :
    (s : Session) (b : Boot) → IsTyped s → IsTyped (gst_pipeline_init s b).session
unfolding commit detect_format
gst_pipeline_init-IsTyped s b h = gst_pipeline_init_ind {P = IsTyped} (record {
  same = h;
  timer_set = λ c e. Alike-IsTyped s (set_timer s b c).0 (set_timer-Alike s b c) h;
  committed = λ p v l c.
      let t = Alike-IsTyped s (set_timer s b c).0 (set_timer-Alike s b c) h in
      record {
        timed = no_timeline-IsTimed;
        dump_word = omega arith;
        interval_set = t.interval_set;
        dir_fits = t.dir_fits;
        rate_int = number_after-IsInt32 _ 10 (pos 44100) p (omega arith, omega arith);
        channels_int = number_after-IsInt32 _ 14 (pos 1) p (omega arith, omega arith);
      };
})

install_video-Alike : (s : Session) (x : Option ℕ) → Alike s (install_video s x).0
unfolding install_video
install_video-Alike s none = (refl, refl, refl, refl)
install_video-Alike s (some v) = (refl, refl, refl, refl)

configure_audio-Alike : (s : Session) (m : MediaBin) → Alike s (configure_audio s m).0
unfolding configure_audio
configure_audio-Alike s m = elim (Option-cases (within m.bin2 m.audio)) [
  | inl e ↦ simp (e, configure_audio) (refl, refl, refl, refl)
  | inr (a, e) ↦ simp (e, configure_audio) (refl, refl, refl, refl)
]

Alike-trans : (s t u : Session) → Alike s t → Alike t u → Alike s u
Alike-trans s t u (a, b, c, d) (a', b', c', d') = (a' ∙ a, b' ∙ b, c' ∙ c, d' ∙ d)

configure_commit-Alike :
    (s : Session) (mode : StreamMode) (x : Option ℕ) (m : MediaBin)
    → Alike s (configure_commit s mode x m).0
unfolding configure_commit
configure_commit-Alike s mode x m =
    let s1 = (install_video s x).0 in
    let s2 = record s1 {
      gates = record s1.gates { media_prepared = false; need_data = true; request_keyframe = true };
    } in
    let (a, b, c, d) = install_video-Alike s x in
    let (a', b', c', d') = configure_audio-Alike s2 m in
    elim (Bool-cases (has_audio mode)) [
      | inl e ↦ simp (e, configure_commit) (a' ∙ a, b' ∙ b, c' ∙ c, d' ∙ d)
      | inr e ↦ simp (e, configure_commit) (a, b, c, d)
    ]

pub on_media_configure-Alike : (s : Session) (m : MediaBin) → Alike s (on_media_configure s m).0
unfolding on_media_configure configure_found
on_media_configure-Alike s m = elim (Option-cases m.bin) [
  | inl n ↦ simp (n, on_media_configure) (refl, refl, refl, refl)
  | inr (b, n) ↦ elim (Option-cases (find_video s.format.stream_mode m)) [
    | inl e ↦ simp (n, e, on_media_configure) (refl, refl, refl, refl)
    | inr (x, e) ↦
        simp (n, e, on_media_configure, configure_found)
          (configure_commit-Alike s s.format.stream_mode x m)
  ]
]

pub play-Alike :
    (s : Session) (q : PlayRequest) (media : Media)
    → Alike s (on_client_play_request s q media).session
unfolding on_client_play_request play_in play_pipeline cache_pipeline
play-Alike s q media = ground arith

-- A new timeline that is in order.
pub restamped :
    (s : Session) (t : Timeline) → IsTimed t → IsTyped s → IsTyped (record s { timeline = t })
restamped s t i h = record {
  timed = i;
  dump_word = h.dump_word;
  interval_set = h.interval_set;
  dir_fits = h.dir_fits;
  rate_int = h.rate_int;
  channels_int = h.channels_int;
}
