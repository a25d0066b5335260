-- ===== src/Streamer/Media/Reconnect.antt =====
-- A media that is torn down and configured again for the next client.
use my_stream_out_app.Base.{
  ℕ, ◌≡◌, refl, ◌∙◌, true, false, Option, none, some, Bool-cases, Option-cases, inl, inr, ap,
  if◌then◌else◌,
}
use my_stream_out_app.Streamer.Session.{Session, StreamMode, no_timeline}
use my_stream_out_app.Streamer.Media.{
  MediaBin, has_video, has_audio, within, configure_audio, install_video, configure_commit,
  configure_found, on_media_configure, on_media_unprepared,
}

-- What is found, or else what was there.
abbrev found_or : Option ℕ → Option ℕ → Option ℕ
found_or none old = old
found_or (some a) old = some a

found_or-none : (x : Option ℕ) → found_or x none ≡ x
found_or-none none = refl
found_or-none (some a) = refl

-- The appsrc that a configured media leaves for audio.
abbrev audio_of : Session → MediaBin → Option ℕ
audio_of s m = found_or (within m.bin2 m.audio) s.handles.audio_appsrc

configure_audio-result :
    (s : Session) (m : MediaBin)
    → let s' = (configure_audio s m).0 in
      (s'.handles.appsrc ≡ s.handles.appsrc)
      × (s'.handles.audio_appsrc ≡ audio_of s m)
      × (s'.gates ≡ s.gates)
      × (s'.timeline ≡ s.timeline)
unfolding configure_audio
configure_audio-result s m = elim (Option-cases (within m.bin2 m.audio)) [
  | inl e ↦ simp (e, configure_audio) (refl, refl, refl, refl)
  | inr (a, e) ↦ simp (e, configure_audio) (refl, refl, refl, refl)
]

configure_commit-result :
    (s : Session) (mode : StreamMode) (v : ℕ) (m : MediaBin)
    → let s' = (configure_commit s mode (some v) m).0 in
      (s'.handles.appsrc ≡ some v)
      × (s'.handles.audio_appsrc
          ≡ (if has_audio mode then audio_of s m else s.handles.audio_appsrc))
      × (s'.gates
          ≡ record s.gates { media_prepared = false; need_data = true; request_keyframe = true })
      × (s'.timeline ≡ s.timeline)
unfolding configure_commit install_video
configure_commit-result s mode v m =
    let s1 = record s { handles = record s.handles { appsrc = some v } } in
    let s2 = record s1 {
      gates = record s1.gates { media_prepared = false; need_data = true; request_keyframe = true };
    } in
    elim (Bool-cases (has_audio mode)) [
      | inl e ↦ simp (e, configure_commit, install_video) (configure_audio-result s2 m)
      | inr e ↦ simp (e, configure_commit, install_video) (refl, refl, refl, refl)
    ]

pub on_media_configure-appsrc :
    (s : Session) (m : MediaBin) (b v : ℕ)
    → has_video s.format.stream_mode ≡ true
    → m.bin ≡ some b
    → m.src ≡ some v
    → let s' = (on_media_configure s m).0 in
      (s'.handles.appsrc ≡ some v) × (s'.gates.need_data ≡ true)
unfolding on_media_configure configure_found
on_media_configure-appsrc s m b v h eb ev =
    let (a, c, g, t) = configure_commit-result s s.format.stream_mode v m in
    simp (h, eb, ev, on_media_configure, configure_found) (a, ap (λ x. x.need_data) g)

-- When a media is unprepared and the next one is configured with a video appsrc, in a mode with
-- video, the session starts afresh: that appsrc is in place, its gate is open and a keyframe is asked
-- for, the timeline is empty, the audio appsrc is the one that the new media has in a mode with audio
-- (none otherwise), and the audio gate is shut until that appsrc asks for data.
pub on_media_unprepared_configure :
    (s : Session) (m : MediaBin) (b v : ℕ)
    → has_video s.format.stream_mode ≡ true
    → m.bin ≡ some b
    → m.src ≡ some v
    → let s' = (on_media_configure (on_media_unprepared s).0 m).0 in
      (s'.handles.appsrc ≡ some v)
      × (s'.handles.audio_appsrc
          ≡ (if has_audio s.format.stream_mode then within m.bin2 m.audio else none))
      × (s'.gates.need_data ≡ true)
      × (s'.gates.request_keyframe ≡ true)
      × (s'.gates.audio_need_data ≡ false)
      × (s'.timeline ≡ no_timeline)
unfolding on_media_unprepared on_media_configure configure_found
on_media_unprepared_configure s m b v h eb ev =
    let s1 = (on_media_unprepared s).0 in
    let (a, c, g, t) = configure_commit-result s1 s.format.stream_mode v m in
    simp (h, eb, ev, on_media_configure, configure_found)
      (
        a,
        c
            ∙ ap (λ x. if has_audio s.format.stream_mode then x else none)
                (found_or-none (within m.bin2 m.audio)),
        ap (λ x. x.need_data) g,
        ap (λ x. x.request_keyframe) g,
        ap (λ x. x.audio_need_data) g,
        t,
      )
