-- ===== src/Streamer/Lifetime/Statuses.antt =====
-- The statuses that Java hears over a lifetime.
pub mod Quiet
pub mod Heard
use my_stream_out_app.Base.{
  ℕ, ◌≡◌, refl, ◌∙◌, ap, sym, inl, inr, ◌⊎◌, Bool, true, false, Option, none, some, List, [], ◌∷◌,
  ◌++◌, map, arith, Option-cases, Bool-cases, if◌then◌else◌,
}
use my_stream_out_app.Base.Text.{Text}
use my_stream_out_app.Streamer.Session.{
  Session, Flags, Format, StreamMode, StreamStatus, unspecified, ready, client_connected, stopped,
  Effect, unref, gain, give, set_service, attach_source, start_loop_thread, status, Ran,
}
use my_stream_out_app.Streamer.Detect.{detect_format}
use my_stream_out_app.Streamer.Lifetime.Settled.{set_timer-SameServer}
use my_stream_out_app.Streamer.Server.{
  Boot, Started, refused, preceded, acquire, factory_setup, set_timer, commit, launch, listen,
  mount, serve, boot, gst_pipeline_init,
}
use my_stream_out_app.Streamer.Reports.Ready.{
  statuses, statuses-append, avpf_statuses, set_timer-statuses,
}

-- What a listener that starts with `up` makes of the statuses: whether a server runs, or `none` as soon
-- as a server is said to be ready while one runs.
abbrev pub heard : Bool → List StreamStatus → Option Bool
heard up [] = some up
heard up (unspecified ∷ xs) = heard up xs
heard true (ready ∷ xs) = none
heard false (ready ∷ xs) = heard true xs
heard up (client_connected ∷ xs) = heard up xs
heard up (stopped ∷ xs) = heard false xs

abbrev pub is_there : Option ℕ → Bool
is_there none = false
is_there (some v) = true

abbrev pub is_up : Session → Bool
is_up s = is_there s.handles.server

-- No status is reported, and the server is as it was.
abbrev pub IsSilent : Session → Ran → Type 0
IsSilent s (s', es) = (statuses es ≡ []) × (s'.handles.server ≡ s.handles.server)

-- A start either says nothing and leaves no server, or says once that its server is ready.
abbrev pub Starts : Started → Type 0
Starts r =
    ((statuses r.effects ≡ []) × (is_up r.session ≡ false))
    ⊎ ((statuses r.effects ≡ ready ∷ []) × (is_up r.session ≡ true))

preceded-Starts :
    (es : List Effect) (r : Started) → statuses es ≡ [] → Starts r → Starts (preceded es r)
preceded-Starts es r e (inl (a, b)) =
    inl (statuses-append es r.effects ∙ ap (λ x. x ++ statuses r.effects) e ∙ a, b)
preceded-Starts es r e (inr (a, b)) =
    inr (statuses-append es r.effects ∙ ap (λ x. x ++ statuses r.effects) e ∙ a, b)

unref_statuses : (xs : List ℕ) → statuses (map unref xs) ≡ []
unref_statuses [] = refl
unref_statuses (x ∷ xs) = unref_statuses xs

-- A start once the timer is set.
abbrev launched : Session → Boot → Text → ℕ → ℕ → ℕ → Started
launched s b p v l c =
    if b.thread_ok
    then record {
      result = true;
      session = commit (set_timer s b c).0 (detect_format p) v l c;
      effects = start_loop_thread l ∷ status ready ∷ [];
    }
    else refused (set_timer s b c).0 (v ∷ l ∷ c ∷ [])

module _ (s : Session) (down : s.handles.server ≡ none) where
  is_down : is_up s ≡ false
  is_down = ap is_there down

  acquire-Starts :
      (x : Option ℕ) (held : List ℕ) (k : ℕ → Started)
      → ((y : ℕ) → Starts (k y))
      → Starts (acquire x held s k)
  acquire-Starts none held k h = inl (unref_statuses held, is_down)
  acquire-Starts (some y) held k h = preceded-Starts (gain y ∷ []) (k y) refl (h y)

  launched-Starts : (b : Boot) (p : Text) (v l c : ℕ) → Starts (launched s b p v l c)
  unfolding commit
  launched-Starts b p v l c = elim (Bool-cases b.thread_ok) [
    | inl e ↦ simp (e) (inr (refl, refl))
    | inr e ↦ simp (e) (inl (refl, ap is_there (set_timer-SameServer s b c).0 ∙ is_down))
  ]

  launch-Starts : (b : Boot) (p : Text) (v l c : ℕ) → Starts (launch s b p v l c)
  unfolding launch
  launch-Starts b p v l c =
      preceded-Starts (set_timer s b c).1 (launched s b p v l c) (set_timer-statuses s b c)
        (launched-Starts b p v l c)

  listen-Starts : (b : Boot) (p : Text) (v l c : ℕ) → Starts (listen s b p v l c)
  unfolding listen
  listen-Starts b p v l c = acquire-Starts b.server_source (v ∷ l ∷ c ∷ []) _ λ src.
      preceded-Starts (attach_source src c ∷ unref src ∷ []) (launch s b p v l c) refl
        (launch-Starts b p v l c)

  mount-Starts : (b : Boot) (p : Text) (f v l c : ℕ) → Starts (mount s b p f v l c)
  unfolding mount
  mount-Starts b p f v l c = acquire-Starts b.mounts (f ∷ v ∷ l ∷ c ∷ []) _ λ m.
      preceded-Starts (give f ∷ unref m ∷ []) (listen s b p v l c) refl (listen-Starts b p v l c)

  factory_statuses : (f : ℕ) (p : Text) → statuses (factory_setup s.flags f p) ≡ []
  factory_statuses f p = simp (statuses-append, avpf_statuses f s.flags.enable_rtcp_feedback) refl

  serve-Starts : (b : Boot) (p : Text) (v l c : ℕ) → Starts (serve s b p v l c)
  unfolding serve
  serve-Starts b p v l c = acquire-Starts b.factory (v ∷ l ∷ c ∷ []) _ λ f.
      preceded-Starts (factory_setup s.flags f p) (mount s b p f v l c) (factory_statuses f p)
        (mount-Starts b p f v l c)

  boot-Starts : (b : Boot) (p : Text) → Starts (boot s b p)
  unfolding boot
  boot-Starts b p = acquire-Starts b.context [] _ λ c. acquire-Starts b.loop (c ∷ []) _ λ l.
      acquire-Starts b.server (l ∷ c ∷ []) _ λ v.
        preceded-Starts (set_service b.port ∷ []) (serve s b p v l c) refl (serve-Starts b p v l c)

-- What is heard of a call is what it leaves.
abbrev pub IsHeard : Session → Ran → Type 0
IsHeard s (s', es) = heard (is_up s) (statuses es) ≡ some (is_up s')

Starts-heard : (r : Started) → Starts r → heard false (statuses r.effects) ≡ some (is_up r.session)
Starts-heard r (inl (a, b)) = rw (a, b) refl
Starts-heard r (inr (a, b)) = rw (a, b) refl

pub gst_pipeline_init-IsHeard :
    (s : Session) (b : Boot)
    → IsHeard s ((gst_pipeline_init s b).session, (gst_pipeline_init s b).effects)
unfolding gst_pipeline_init
gst_pipeline_init-IsHeard s b = elim (Option-cases b.pipeline) [
  | inl n ↦ simp (n, gst_pipeline_init) refl
  | inr (p, n) ↦ elim (Option-cases s.handles.server) [
    | inl e ↦ simp (n, e, gst_pipeline_init) (Starts-heard (boot s b p) (boot-Starts s e b p))
    | inr (v, e) ↦ simp (n, e, gst_pipeline_init) refl
  ]
]

pub IsSilent-IsHeard : (s : Session) (r : Ran) → IsSilent s r → IsHeard s r
IsSilent-IsHeard s (s', es) (a, b) = rw (a, b) refl

pub heard-append :
    (up : Bool) (xs ys : List StreamStatus) (mid : Bool)
    → heard up xs ≡ some mid
    → heard up (xs ++ ys) ≡ heard mid ys
heard-append up [] ys mid e = ground (arith)
heard-append up (unspecified ∷ xs) ys mid e = heard-append up xs ys mid e
heard-append true (ready ∷ xs) ys mid e = absurd (ground arith)
heard-append false (ready ∷ xs) ys mid e = heard-append true xs ys mid e
heard-append up (client_connected ∷ xs) ys mid e = heard-append up xs ys mid e
heard-append up (stopped ∷ xs) ys mid e = heard-append false xs ys mid e
