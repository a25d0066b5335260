-- ===== src/Streamer/Server/Outcomes.antt =====
-- A proof rule for the state that nativeGstPipelineInit leaves.
use my_stream_out_app.Base.{
  ℕ, ◌≡◌, inl, inr, false, Option, none, some, List, [], ◌∷◌, Option-cases, Bool-cases,
}
use my_stream_out_app.Base.Text.{Text}
use my_stream_out_app.Streamer.Session.{Session}
use my_stream_out_app.Streamer.Detect.{detect_format}
use my_stream_out_app.Streamer.Server.{
  Boot, Started, acquire, set_timer, commit, launch, listen, mount, serve, boot, gst_pipeline_init,
}

-- What to show of a property: the state as it was has it, so has the state with only the timer set where
-- the thread cannot be created, and so has a committed session.
pub record Rule (P : Session → Type 0) (s : Session) (b : Boot) : Type 0 where
  pub same : P s
  pub timer_set : (c : ℕ) → b.thread_ok ≡ false → P (set_timer s b c).0
  pub committed : (p : Text) (v l c : ℕ) → P (commit (set_timer s b c).0 (detect_format p) v l c)

module _ {P : Session → Type 0} {s : Session} {b : Boot} (rule : Rule P s b) where
  open rule use {same, timer_set, committed}

  acquire_ind :
      (x : Option ℕ) (held : List ℕ) (k : ℕ → Started)
      → ((y : ℕ) → P (k y).session)
      → P (acquire x held s k).session
  acquire_ind none held k h = same
  acquire_ind (some y) held k h = h y

  launch_ind : (p : Text) (v l c : ℕ) → P (launch s b p v l c).session
  unfolding launch
  launch_ind p v l c = elim (Bool-cases b.thread_ok) [
    | inl e ↦ simp (e, launch) (committed p v l c)
    | inr e ↦ simp (e, launch) (timer_set c e)
  ]

  listen_ind : (p : Text) (v l c : ℕ) → P (listen s b p v l c).session
  unfolding listen
  listen_ind p v l c = acquire_ind b.server_source (v ∷ l ∷ c ∷ []) _ λ src. launch_ind p v l c

  mount_ind : (p : Text) (f v l c : ℕ) → P (mount s b p f v l c).session
  unfolding mount
  mount_ind p f v l c = acquire_ind b.mounts (f ∷ v ∷ l ∷ c ∷ []) _ λ m. listen_ind p v l c

  serve_ind : (p : Text) (v l c : ℕ) → P (serve s b p v l c).session
  unfolding serve
  serve_ind p v l c = acquire_ind b.factory (v ∷ l ∷ c ∷ []) _ λ f. mount_ind p f v l c

  boot_ind : (p : Text) → P (boot s b p).session
  unfolding boot
  boot_ind p = acquire_ind b.context [] _ λ c.
      acquire_ind b.loop (c ∷ []) _ λ l. acquire_ind b.server (l ∷ c ∷ []) _ λ v. serve_ind p v l c

  pub gst_pipeline_init_ind : P (gst_pipeline_init s b).session
  unfolding gst_pipeline_init
  gst_pipeline_init_ind = elim (Option-cases b.pipeline) [
    | inl n ↦ simp (n, gst_pipeline_init) same
    | inr (p, n) ↦ elim (Option-cases s.handles.server) [
      | inl e ↦ simp (n, e, gst_pipeline_init) (boot_ind p)
      | inr (v, e) ↦ simp (n, e, gst_pipeline_init) same
    ]
  ]
