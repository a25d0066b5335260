-- ===== src/Streamer/Lifetime/Serial/Pointers.antt =====
-- The module's pointers into medias, over any history in GStreamer's order.
use my_stream_out_app.Base.{
  ℕ, ◌≡◌, ◌⊎◌, refl, sym, ap, ◌∙◌, inl, inr, true, Option, none, some, List,
}
use my_stream_out_app.Streamer.Session.{Session, Effect, initial}
use my_stream_out_app.Streamer.Audio.{Smoothing}
use my_stream_out_app.Streamer.Media.{MediaBin, on_media_configure, on_media_unprepared}
use my_stream_out_app.Streamer.Play.{PlayRequest, Media, CachesOne, on_client_play_request}
use my_stream_out_app.Streamer.Stop.{stop_locked, stop_rest, gst_pipeline_destroy}
use my_stream_out_app.Streamer.Lifetime.Serial.{
  Live, live_media, live_pipeline, live_src, live_audio, Serial, comes, plays, goes, ends, other,
  Serials, start, next,
}
use my_stream_out_app.Streamer.Lifetime.Serial.Changes.{
  IsAmong, SameMedia, Step-SameMedia, on_media_configure-Fills, play-Caches, play-appsrcs,
}

-- Each pointer into a media is one into the media that is alive.
pub record Follows (live : Option Live) (s : Session) : Type 0 where
  pub video_follows : IsAmong s.handles.appsrc (live_src live)
  pub audio_follows : IsAmong s.handles.audio_appsrc (live_audio live)
  pub pipeline_follows : IsAmong s.handles.full_pipeline (live_pipeline live)

SameMedia-Follows :
    (live : Option Live) (s s' : Session) → SameMedia s s' → Follows live s → Follows live s'
SameMedia-Follows live s s' (a, b, c) h = record {
  video_follows = rw (a) h.video_follows;
  audio_follows = rw (b) h.audio_follows;
  pipeline_follows = rw (c) h.pipeline_follows;
}

IsAmong-none : (x : Option ℕ) → IsAmong x none → x ≡ none
IsAmong-none x (inl e) = e
IsAmong-none x (inr e) = e

-- A pointer that was null, or one into the new media.
now-IsAmong : (x x' y : Option ℕ) → IsAmong x none → (x' ≡ x) ⊎ (x' ≡ y) → IsAmong x' y
now-IsAmong x x' y h (inl e) = inl (e ∙ IsAmong-none x h)
now-IsAmong x x' y h (inr e) = inr e

on_media_configure-Follows :
    (s : Session) (bin : MediaBin) (p : ℕ)
    → Follows none s
    → Follows (some (live_media p bin)) (on_media_configure s bin).0
on_media_configure-Follows s bin p h =
    let (a, b, c) = on_media_configure-Fills s bin in
    let s' = (on_media_configure s bin).0 in
    record {
      video_follows = now-IsAmong s.handles.appsrc s'.handles.appsrc bin.src h.video_follows a;
      audio_follows =
          now-IsAmong s.handles.audio_appsrc s'.handles.audio_appsrc bin.audio h.audio_follows b;
      pipeline_follows =
          now-IsAmong s.handles.full_pipeline s'.handles.full_pipeline (some p) h.pipeline_follows
            (inl c);
    }

-- A play request for the media that is alive finds no pipeline cached but its own.
pub Follows-CachesOne :
    (s : Session) (q : PlayRequest) (l : Live)
    → Follows (some l) s
    → ((p : ℕ) → q.parent ≡ some (p, true) → p ≡ l.pipeline)
    → CachesOne s q
Follows-CachesOne s q l h own p e = elim h.pipeline_follows [
  | inl n ↦ inl n
  | inr n ↦ inr (n ∙ ap some (sym (own p e)))
]

play-Follows :
    (s : Session) (q : PlayRequest) (media : Media) (l : Live)
    → ((p : ℕ) → q.parent ≡ some (p, true) → p ≡ l.pipeline)
    → Follows (some l) s
    → Follows (some l) (on_client_play_request s q media).session
play-Follows s q media l own h =
    let (a, b) = play-appsrcs s q media in
    record {
      video_follows = rw (a) h.video_follows;
      audio_follows = rw (b) h.audio_follows;
      pipeline_follows = elim (play-Caches s q media) [
        | inl e ↦ rw (e) h.pipeline_follows
        | inr (p, q', e) ↦ inr (e ∙ ap some (own p q'))
      ];
    }

no_media-Follows :
    (live : Option Live) (s : Session)
    → s.handles.appsrc ≡ none
    → s.handles.audio_appsrc ≡ none
    → s.handles.full_pipeline ≡ none
    → Follows live s
no_media-Follows live s a b c = record {
  video_follows = inl a;
  audio_follows = inl b;
  pipeline_follows = inl c;
}

Serial-Follows :
    (m : Smoothing) (live : Option Live) (s : Session) (live' : Option Live) (t : Session)
    (es : List Effect)
    → Serial m live s live' t es
    → Follows live s
    → Follows live' t
unfolding on_media_unprepared gst_pipeline_destroy stop_locked stop_rest
Serial-Follows m live s _ _ _ (comes bin p e) h = on_media_configure-Follows s bin p (rw (e) at h)
Serial-Follows m live s _ _ _ (plays q media l e own) h =
    rw (e) (play-Follows s q media l own (rw (e) at h))
Serial-Follows m live s _ _ _ goes h =
    no_media-Follows none (on_media_unprepared s).0 refl refl refl
Serial-Follows m live s _ _ _ ends h =
    no_media-Follows none (gst_pipeline_destroy s).0 refl refl refl
Serial-Follows m live s _ t es (other st e) h =
    SameMedia-Follows live s t (Step-SameMedia m s (t, es) st e) h

-- Over any history from the initial state in which the main loop runs the media callbacks in
-- GStreamer's order, one media at a time (steps of every other kind may come anywhere; each start can
-- create its thread, and no step comes between the parts of a call), the appsrcs and the pipeline that
-- the module keeps are those of the media that is alive, or null; when no media is alive all three are
-- null.
pub Serials-Follows :
    (m : Smoothing) (live : Option Live) (s : Session) (es : List Effect)
    → Serials m none initial live s es
    → Follows live s
Serials-Follows m _ _ _ start = no_media-Follows none initial refl refl refl
Serials-Follows m live s all (next {live'} {t} {es} {es'} h st e) =
    Serial-Follows m live' t live s es' st (Serials-Follows m live' t es h)
