-- ===== src/Streamer/Ledger/Timer.antt =====
-- The dump timer of a start that failed, at the next start.
use my_stream_out_app.Base.{
  ℕ, ◌+◌, ◌≡◌, refl, true, false, none, Bool, [], ◌∷◌, if◌then◌else◌, arith, ap,
}
use my_stream_out_app.Base.Text.{Text}
use my_stream_out_app.Streamer.Session.{Session, factory_media_type, factory_avpf_only}
use my_stream_out_app.Streamer.Server.{
  Boot, set_timer, commit, launch, listen, mount, serve, boot, gst_pipeline_init,
}
use my_stream_out_app.Streamer.Server.Start.{IsComplete}
use my_stream_out_app.Streamer.Ledger.{owns, holds, gained, used_up, gained-append, used_up-append}

set_timer_counts :
    (o : ℕ) (s : Session) (b : Boot) (c : ℕ)
    → let (s', es) = set_timer s b c in
      (gained o es ≡ owns o s'.handles.periodic_source)
      × (used_up o es ≡ 0)
      × (s'.handles.full_pipeline ≡ s.handles.full_pipeline)
      × (s'.handles.appsrc ≡ s.handles.appsrc)
      × (s'.handles.audio_appsrc ≡ s.handles.audio_appsrc)
unfolding set_timer
set_timer_counts o s b c = ground arith

avpf_counts :
    (o f : ℕ) (x : Bool)
    → let es = if x then factory_media_type f ∷ factory_avpf_only f ∷ [] else [] in
      (gained o es ≡ 0) × (used_up o es ≡ 0)
avpf_counts o f true = (refl, refl)
avpf_counts o f false = (refl, refl)

-- A start that succeeds while the timer of an earlier start is still held loses the reference to that
-- timer: what it held and was given exceeds what it holds and has given up by exactly that one.
pub gst_pipeline_init_loses_timer :
    (o : ℕ) (s : Session) (b : Boot) (p : Text) (c l v f m src : ℕ)
    → s.handles.server ≡ none
    → s.handles.loop ≡ none
    → s.handles.context ≡ none
    → IsComplete b p c l v f m src
    → b.thread_ok ≡ true
    → let r = gst_pipeline_init s b in
      holds o s.handles + gained o r.effects
      ≡ holds o r.session.handles + used_up o r.effects + owns o s.handles.periodic_source
unfolding gst_pipeline_init boot serve mount listen launch commit
gst_pipeline_init_loses_timer o s b p c l v f m src h hl hc i e =
    let (g, u, fa, fb, k) = set_timer_counts o s b c in
    let (fg, fu) = avpf_counts o f s.flags.enable_rtcp_feedback in
    simp
      (
        h, e, hl, hc, i.pipeline_made, i.context_made, i.loop_made, i.server_made, i.factory_made,
        i.mounts_made, i.source_made, gained-append, used_up-append, gst_pipeline_init, boot, serve,
        mount, listen, launch,
      )
      (omega (
        arith,
        g,
        u,
        ap (owns o) fa,
        ap (owns o) fb,
        ap (owns o) k,
        fg,
        fu,
        ap (owns o) h,
        ap (owns o) hl,
        ap (owns o) hc,
      ))
