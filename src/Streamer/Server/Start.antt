-- ===== src/Streamer/Server/Start.antt =====
-- When nativeGstPipelineInit succeeds, what it leaves behind, and what a failure leaves.
use my_stream_out_app.Base.{
  ℕ, ◌≡◌, ◌↔◌, inl, inr, refl, true, false, Option, none, some, List, [], ◌∷◌, arith, Option-cases,
  sym, ◌∙◌,
}
use my_stream_out_app.Base.Text.{Text}
use my_stream_out_app.Streamer.Session.{Session, no_timeline}
use my_stream_out_app.Streamer.Detect.{detect_format}
use my_stream_out_app.Streamer.Server.{
  Boot, Started, acquire, set_timer, commit, launch, listen, mount, serve, boot, gst_pipeline_init,
}

-- Every constructor answers, with these objects.
pub record IsComplete (b : Boot) (p : Text) (c l v f m src : ℕ) : Type 0 where
  pub pipeline_made : b.pipeline ≡ some p
  pub context_made : b.context ≡ some c
  pub loop_made : b.loop ≡ some l
  pub server_made : b.server ≡ some v
  pub factory_made : b.factory ≡ some f
  pub mounts_made : b.mounts ≡ some m
  pub source_made : b.server_source ≡ some src

-- A start that gets as far as its thread ends as `launch` ends.
abbrev AsLaunch : Session → Boot → Text → ℕ → ℕ → ℕ → Started → Type 0
AsLaunch s b p v l c r =
    (r.result ≡ (launch s b p v l c).result) × (r.session ≡ (launch s b p v l c).session)

pub complete_launch :
    (s : Session) (b : Boot) (p : Text) (c l v f m src : ℕ)
    → s.handles.server ≡ none
    → IsComplete b p c l v f m src
    → AsLaunch s b p v l c (gst_pipeline_init s b)
unfolding gst_pipeline_init boot serve mount listen
complete_launch s b p c l v f m src h i =
    simp
      (
        h, i.pipeline_made, i.context_made, i.loop_made, i.server_made, i.factory_made,
        i.mounts_made, i.source_made, gst_pipeline_init, boot, serve, mount, listen,
      )
      (refl, refl)

launch-result :
    (s : Session) (b : Boot) (p : Text) (v l c : ℕ) → (launch s b p v l c).result ≡ b.thread_ok
unfolding launch
launch-result s b p v l c = ground arith

acquire-true :
    (x : Option ℕ) (held : List ℕ) (s : Session) (k : ℕ → Started)
    → (acquire x held s k).result ≡ true
    → (y : ℕ) × ((x ≡ some y) × ((k y).result ≡ true))
acquire-true none held s k e = absurd (ground arith)
acquire-true (some y) held s k e = (y, (refl, e))

-- Every constructor answers.
abbrev pub AllMade : Boot → Type 0
AllMade b =
    (p : Text) × ((c : ℕ) × ((l : ℕ) × ((v : ℕ) × ((f : ℕ) × ((m : ℕ) × ((src : ℕ) × IsComplete b p
                  c l v f m src))))))

boot-true :
    (s : Session) (b : Boot) (p : Text)
    → b.pipeline ≡ some p
    → (boot s b p).result ≡ true
    → AllMade b × (b.thread_ok ≡ true)
unfolding boot serve mount listen
boot-true s b p n e =
    let (c, (ec, e1)) = acquire-true b.context [] s _ e in
    let (l, (el, e2)) = acquire-true b.loop (c ∷ []) s _ e1 in
    let (v, (ev, e3)) = acquire-true b.server (l ∷ c ∷ []) s _ e2 in
    let (f, (ef, e4)) = acquire-true b.factory (v ∷ l ∷ c ∷ []) s _ e3 in
    let (m, (em, e5)) = acquire-true b.mounts (f ∷ v ∷ l ∷ c ∷ []) s _ e4 in
    let (src, (es, e6)) = acquire-true b.server_source (v ∷ l ∷ c ∷ []) s _ e5 in
    (
      (
        p,
        (
          c,
          (
            l,
            (
              v,
              (
                f,
                (
                  m,
                  (
                    src,
                    record {
                      pipeline_made = n;
                      context_made = ec;
                      loop_made = el;
                      server_made = ev;
                      factory_made = ef;
                      mounts_made = em;
                      source_made = es;
                    },
                  ),
                ),
              ),
            ),
          ),
        ),
      ),
      sym (launch-result s b p v l c) ∙ e6,
    )

gst_pipeline_init-true :
    (s : Session) (b : Boot)
    → (gst_pipeline_init s b).result ≡ true
    → (s.handles.server ≡ none) × (AllMade b × (b.thread_ok ≡ true))
unfolding gst_pipeline_init
gst_pipeline_init-true s b e = elim (Option-cases b.pipeline) [
  | inl n ↦ ground arith
  | inr (p, n) ↦ elim (Option-cases s.handles.server) [
    | inl h ↦ (h, boot-true s b p n (simp (n, h, gst_pipeline_init) at e))
    | inr (v, h) ↦ ground arith
  ]
]

-- nativeGstPipelineInit returns true exactly if no server is running, every constructor answers and
-- the thread can be created.
pub gst_pipeline_init_iff :
    (s : Session) (b : Boot)
    → ((gst_pipeline_init s b).result ≡ true)
      ↔ ((s.handles.server ≡ none) × (AllMade b × (b.thread_ok ≡ true)))
gst_pipeline_init_iff s b = (
  gst_pipeline_init-true s b,
  λ (h, ((p, (c, (l, (v, (f, (m, (src, i))))))), e)).
      (complete_launch s b p c l v f m src h i).0 ∙ (launch-result s b p v l c ∙ e),
)

-- A start that returns true leaves the session with the server, the loop and the context that the
-- constructors made, the format read off the pipeline text, an empty timeline, both need-data flags
-- set, no media prepared, no client, and the settings, the two appsrcs and the cached pipeline that it
-- had before.
pub gst_pipeline_init_success :
    (s : Session) (b : Boot) (p : Text) (c l v f m src : ℕ)
    → s.handles.server ≡ none
    → IsComplete b p c l v f m src
    → b.thread_ok ≡ true
    → let s' = (gst_pipeline_init s b).session in
      (s'.handles.server ≡ some v)
      × (s'.handles.loop ≡ some l)
      × (s'.handles.context ≡ some c)
      × (s'.format ≡ detect_format p)
      × (s'.timeline ≡ no_timeline)
      × (s'.gates.need_data ≡ true)
      × (s'.gates.audio_need_data ≡ true)
      × (s'.gates.media_prepared ≡ false)
      × (s'.client_count ≡ 0)
      × (s'.flags ≡ s.flags)
      × (s'.handles.appsrc ≡ s.handles.appsrc)
      × (s'.handles.audio_appsrc ≡ s.handles.audio_appsrc)
      × (s'.handles.full_pipeline ≡ s.handles.full_pipeline)
unfolding launch commit set_timer
gst_pipeline_init_success s b p c l v f m src h i e =
    rw ((complete_launch s b p c l v f m src h i).1) (ground arith)

-- A start with every constructor answering and the dump timer on, whose thread cannot be created,
-- returns false and leaves the session as it was but for the timer, which it still owns although
-- everything else has been given up.
pub gst_pipeline_init_keeps_timer :
    (s : Session) (b : Boot) (p : Text) (c l v f m src : ℕ)
    → s.handles.server ≡ none
    → s.flags.periodic_dump_enable ≡ true
    → IsComplete b p c l v f m src
    → b.thread_ok ≡ false
    → let r = gst_pipeline_init s b in
      (r.result ≡ false)
      × (r.session
          ≡ record s { handles = record s.handles { periodic_source = some b.periodic_source } })
unfolding launch set_timer
gst_pipeline_init_keeps_timer s b p c l v f m src h d i e =
    let (r, q) = complete_launch s b p c l v f m src h i in (r ∙ ground arith, q ∙ ground arith)
