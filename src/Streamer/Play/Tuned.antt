-- ===== src/Streamer/Play/Tuned.antt =====
-- What a play request leaves behind, and what a second one on the same media does.
use my_stream_out_app.Base.{
  ℕ, ◌≡◌, refl, ap, ap₂, ◌∙◌, sym, Bool, true, some, List, [], All, ◌∷◌, map, length, arith,
  ==_refl,
}
use my_stream_out_app.Streamer.Session.{Session, Effect, gain, unref}
use my_stream_out_app.Streamer.Play.{
  Element, Answer, relax, configure_rtp, relax_rtpbin, drop_storage, set_ntp_source, Media,
  PlayRequest, after, passes, cache_pipeline, play_pipeline, play_in, on_client_play_request,
}
use mathlib.Core.Path.{subst}
use my_stream_out_app.Streamer.Play.Live.{IsLive, map-tuned-IsLive}
use my_stream_out_app.Streamer.Play.Scan.{
  IsScanned, tuned, relax_idempotent, configure_rtp_idempotent, length-map, passes-map,
}

-- The calls around the part that does the work.
abbrev around : ℕ → ℕ → List Effect
around u p = gain u ∷ gain p ∷ unref u ∷ []

request_reaches :
    (s : Session) (q : PlayRequest) (m : Media) (n u p : ℕ) (first second : List Answer)
    → IsScanned q n u p first second
    → on_client_play_request s q m ≡ after (around u p) (play_pipeline s q m p)
unfolding on_client_play_request play_in
request_reaches s q m n u p first second i =
    simp (i.media_found, i.bin_found, i.parent_found, on_client_play_request, play_in) refl

cache_pipeline-result :
    (s : Session) (p : ℕ)
    → ((cache_pipeline s p).0.handles.full_pipeline ≡ some p)
      × ((cache_pipeline s p).0.flags ≡ s.flags)
unfolding cache_pipeline
cache_pipeline-result s p = ground arith

-- A play request on a media all of whose elements come up in both passes leaves the pipeline cached,
-- every element with both passes' properties whatever resyncs came in between, which are those of a
-- live transmitter, and the latency marked as recalculated.
pub on_client_play_request_tunes :
    (s : Session) (q : PlayRequest) (m : Media) (u p : ℕ) (first second : List Answer)
    → IsScanned q (length m.elements) u p first second
    → let r = on_client_play_request s q m in
      (r.session.handles.full_pipeline ≡ some p)
      × (r.media ≡ record {
        elements = map (tuned s.flags.rtpbin_buffer_mode_none) m.elements;
        latency_recalc_done = true;
      })
      × All IsLive r.media.elements
unfolding play_pipeline
on_client_play_request_tunes s q m u p first second i =
    let run =
      passes-map s.flags.rtpbin_buffer_mode_none q m.elements (length m.elements) u p first second
        refl i in
    rw (request_reaches s q m (length m.elements) u p first second i) (
      (cache_pipeline-result s p).0,
      ap (λ es. record { elements = es; latency_recalc_done = true }) run,
      subst (All IsLive) (sym run) (map-tuned-IsLive s.flags.rtpbin_buffer_mode_none m.elements),
    )

relax-relax_rtpbin : (b : Bool) (e : Element) → relax (relax_rtpbin b e) ≡ relax_rtpbin b (relax e)
unfolding relax
relax-relax_rtpbin b e = ground arith

relax-drop_storage : (e : Element) → relax (drop_storage e) ≡ drop_storage (relax e)
unfolding relax
relax-drop_storage e = ground arith

relax-set_ntp_source : (e : Element) → relax (set_ntp_source e) ≡ set_ntp_source (relax e)
unfolding relax
relax-set_ntp_source e = ground arith

relax-configure_rtp :
    (b : Bool) (e : Element) → relax (configure_rtp b e) ≡ configure_rtp b (relax e)
unfolding configure_rtp
relax-configure_rtp b e =
    relax-drop_storage (set_ntp_source (relax_rtpbin b e))
    ∙ ap drop_storage
        (relax-set_ntp_source (relax_rtpbin b e) ∙ ap set_ntp_source (relax-relax_rtpbin b e))

tuned_idempotent : (b : Bool) (e : Element) → tuned b (tuned b e) ≡ tuned b e
tuned_idempotent b e =
    ap (configure_rtp b) (relax-configure_rtp b (relax e))
    ∙ configure_rtp_idempotent b (relax (relax e))
    ∙ ap (configure_rtp b) (relax_idempotent e)

map-tuned : (b : Bool) (es : List Element) → map (tuned b) (map (tuned b) es) ≡ map (tuned b) es
map-tuned b [] = refl
map-tuned b (e ∷ es) = ap₂ ◌∷◌ (tuned_idempotent b e) (map-tuned b es)

cached_again :
    (s : Session) (p : ℕ) → s.handles.full_pipeline ≡ some p → cache_pipeline s p ≡ (s, [])
unfolding cache_pipeline
cached_again s p h = simp (h, ==_refl p, cache_pipeline) refl

play_settled :
    (s : Session) (q : PlayRequest) (m : Media) (p : ℕ)
    → s.handles.full_pipeline ≡ some p
    → m.latency_recalc_done ≡ true
    → passes s.flags.rtpbin_buffer_mode_none q m.elements ≡ m.elements
    → play_pipeline s q m p ≡ record { session = s; media = m; effects = unref p ∷ [] }
unfolding play_pipeline
play_settled s q m p h l e =
    simp (cached_again s p h, l, e, play_pipeline)
      (ap
        (λ b. record {
          session = s;
          media = record { elements = m.elements; latency_recalc_done = b };
          effects = unref p ∷ [];
        })
        (sym l))

request_flags :
    (s : Session) (q : PlayRequest) (m : Media) (n u p : ℕ) (first second : List Answer)
    → IsScanned q n u p first second
    → (on_client_play_request s q m).session.flags ≡ s.flags
unfolding play_pipeline
request_flags s q m n u p first second i =
    rw (request_reaches s q m n u p first second i) ((cache_pipeline-result s p).1)

-- A second client's play request on the media and the pipeline that a first one has set up changes
-- neither the session nor an element, recalculates nothing, and keeps no reference.
pub on_client_play_request_again :
    (s : Session) (q q' : PlayRequest) (m : Media) (u u' p : ℕ)
    (first second first' second' : List Answer)
    → IsScanned q (length m.elements) u p first second
    → IsScanned q' (length m.elements) u' p first' second'
    → let r = on_client_play_request s q m in
      let r' = on_client_play_request r.session q' r.media in
      (r'.session ≡ r.session)
      × (r'.media ≡ r.media)
      × (r'.effects ≡ gain u' ∷ gain p ∷ unref u' ∷ unref p ∷ [])
on_client_play_request_again s q q' m u u' p first second first' second' i i' =
    let r = on_client_play_request s q m in
    let b = s.flags.rtpbin_buffer_mode_none in
    let t = on_client_play_request_tunes s q m u p first second i in
    let same_flags = request_flags s q m (length m.elements) u p first second i in
    let now : r.media.elements ≡ map (tuned b) m.elements = ap (λ x. x.elements) t.1 in
    let settled : passes r.session.flags.rtpbin_buffer_mode_none q' r.media.elements
        ≡ r.media.elements =
      ap (λ x. passes x.rtpbin_buffer_mode_none q' r.media.elements) same_flags
      ∙ ap (passes b q') now
      ∙ passes-map b q' (map (tuned b) m.elements) (length m.elements) u' p first' second'
          (length-map (tuned b) m.elements) i'
      ∙ map-tuned b m.elements
      ∙ sym now in
    rw
      (
        request_reaches r.session q' r.media (length m.elements) u' p first' second' i',
        play_settled r.session q' r.media p t.0 (ap (λ x. x.latency_recalc_done) t.1) settled,
      )
      (refl, refl, refl)
