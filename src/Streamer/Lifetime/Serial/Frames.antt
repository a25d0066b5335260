-- ===== src/Streamer/Lifetime/Serial/Frames.antt =====
-- Where the pushed frames go, and what is released, over any history in GStreamer's order.
use my_stream_out_app.Base.{
  ℕ, ◌≡◌, inl, inr, Bool, none, some, Option, List, [], ◌∷◌, ◌++◌, arith, All, Option-cases,
}
use my_stream_out_app.Base.Int.{ℤ}
use my_stream_out_app.Streamer.Session.{Session, Buffer, Effect, Ran, initial}
use my_stream_out_app.Streamer.Video.{
  Frame, ByteBuffer, payload, pin_encoder, push_to, push_encoded_buffer,
}
use my_stream_out_app.Streamer.Video.Gate.{pushed}
use my_stream_out_app.Streamer.Audio.{Smoothing, stamp_audio, push_audio_to, push_audio_buffer}
use my_stream_out_app.Streamer.Stop.{gst_pipeline_destroy}
use my_stream_out_app.Streamer.Ledger.{gained, used_up}
use my_stream_out_app.Streamer.Lifetime as Lifetime
use my_stream_out_app.Streamer.Lifetime.{configure, play, unprepared, destroy, Run}
use my_stream_out_app.Streamer.Lifetime.Balance.{Run-destroy_releases}
use my_stream_out_app.Streamer.Lifetime.Serial.{
  Live, live_src, live_audio, Serial, comes, plays, goes, ends, other, Serials, start, next,
}
use my_stream_out_app.Streamer.Lifetime.Serial.Changes.{IsAmong}
use my_stream_out_app.Streamer.Lifetime.Serial.Pointers.{
  Follows, Follows-CachesOne, Serials-Follows,
}

-- Every buffer that a call pushes goes to that element.
abbrev pub AllTo : Option ℕ → List Effect → Type 0
AllTo x es = All (λ (b : ℕ × Buffer). some b.0 ≡ x) (pushed es)

video-AllTo :
    (s : Session) (f : Frame) (buf : ByteBuffer) (map_ok : Bool)
    → AllTo s.handles.appsrc (push_encoded_buffer s f buf map_ok).1
unfolding push_encoded_buffer push_to pin_encoder
video-AllTo s f buf map_ok = ground arith

audio_to-AllTo :
    (m : Smoothing) (src : ℕ) (s : Session) (bytes : List ℕ) (size : ℕ) (pts_us : ℤ) (r : Ran)
    → push_audio_to m src s bytes size pts_us ≡ some r
    → AllTo (some src) r.1
unfolding push_audio_to
audio_to-AllTo m src s bytes size pts_us r e =
    elim (Option-cases (stamp_audio m s.timeline s.format pts_us size)) [
      | inl n ↦ ground arith
      | inr (st, n) ↦ ground arith
    ]

audio-AllTo :
    (m : Smoothing) (s : Session) (buf : ByteBuffer) (offset size : ℕ) (pts_us : ℤ) (map_ok : Bool)
    (r : Ran)
    → push_audio_buffer m s buf offset size pts_us map_ok ≡ some r
    → AllTo s.handles.audio_appsrc r.1
unfolding push_audio_buffer
audio-AllTo m s buf offset size pts_us map_ok r e = elim (Option-cases s.handles.audio_appsrc) [
  | inl n ↦ ground arith
  | inr (src, n) ↦ elim (Option-cases (payload buf offset size)) [
    | inl b ↦ ground arith
    | inr (bytes, b) ↦ ground (arith, audio_to-AllTo m src s bytes size pts_us r)
  ]
]

AllTo-IsAmong : (x y : Option ℕ) (es : List Effect) → IsAmong x y → AllTo x es → AllTo y es
AllTo-IsAmong x y es (inr e) h = rw⁻¹ (e) h
AllTo-IsAmong x y es (inl e) h = nothing (pushed es) (rw (e) at h)
  where
    nothing :
        (bs : List (ℕ × Buffer))
        → All (λ (b : ℕ × Buffer). some b.0 ≡ none) bs
        → All (λ (b : ℕ × Buffer). some b.0 ≡ y) bs
    nothing [] k = k
    nothing (b ∷ bs) (k, ks) = absurd (ground arith)

-- After any history from the initial state in which the main loop runs the media callbacks in
-- GStreamer's order, one media at a time (each start can create its thread, and no step comes between
-- the parts of a call): the frames that a push of video makes go to the video appsrc of the media that
-- is alive, and those of a push of audio that does not divide by zero to its audio appsrc; while no
-- media is alive, or it has no such appsrc, nothing is pushed.
pub Serials-pushes :
    (m : Smoothing) (live : Option Live) (s : Session) (es : List Effect)
    → Serials m none initial live s es
    → (f : Frame) (buf : ByteBuffer) (map_ok : Bool) (audio : ByteBuffer) (offset size : ℕ)
      (pts_us : ℤ) (audio_map_ok : Bool) (r : Ran)
    → push_audio_buffer m s audio offset size pts_us audio_map_ok ≡ some r
    → AllTo (live_src live) (push_encoded_buffer s f buf map_ok).1 × AllTo (live_audio live) r.1
Serials-pushes m live s es h f buf map_ok audio offset size pts_us audio_map_ok r e =
    let k = Serials-Follows m live s es h in
    (
      AllTo-IsAmong s.handles.appsrc (live_src live) (push_encoded_buffer s f buf map_ok).1
          k.video_follows (video-AllTo s f buf map_ok),
      AllTo-IsAmong s.handles.audio_appsrc (live_audio live) r.1 k.audio_follows
          (audio-AllTo m s audio offset size pts_us audio_map_ok r e),
    )

-- Such a history is a run: each play request finds no pipeline cached but its own.
Serials-Run :
    (m : Smoothing) (live : Option Live) (s : Session) (es : List Effect)
    → Serials m none initial live s es
    → Run m initial s es
Serials-Run m _ _ _ start = Lifetime.start
Serials-Run m live s all (next {live'} {t} {es} {es'} h st e) =
    Lifetime.next (Serials-Run m live' t es h) (step st (Serials-Follows m live' t es h)) e
  where
    step :
        {live live' : Option Live} {t s : Session} {es : List Effect}
        → Serial m live t live' s es
        → Follows live t
        → Lifetime.Step m t (s, es)
    step (comes bin p n) k = configure bin
    step {t} (plays q media l n own) k = play q media (Follows-CachesOne t q l (rw (n) at k) own)
    step goes k = unprepared
    step ends k = destroy
    step (other st n) k = st

-- After any history from the initial state in which the main loop runs the media callbacks in
-- GStreamer's order, one media at a time (each start can create its thread, and no step comes between
-- the parts of a call), nativeGstPipelineDestroy leaves every reference to every object given up, and
-- none of them twice: no play request takes a second pipeline while one is cached.
pub Serials-destroy_releases :
    (o : ℕ) (m : Smoothing) (live : Option Live) (s : Session) (es all : List Effect)
    → Serials m none initial live s es
    → all ≡ es ++ (gst_pipeline_destroy s).1
    → gained o all ≡ used_up o all
Serials-destroy_releases o m live s es all h e =
    Run-destroy_releases o m s es all (Serials-Run m live s es h) e
