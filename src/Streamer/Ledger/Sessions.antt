-- ===== src/Streamer/Ledger/Sessions.antt =====
-- The references over nativeGstPipelineInit, on success and on each failure.
use my_stream_out_app.Base.{
  ℕ, ◌+◌, ◌≡◌, ◌≤◌, refl, Option, none, some, List, [], ◌∷◌, map, arith, Option-cases, Bool-cases,
  inl, inr, ap,
}
use my_stream_out_app.Base.Text.{Text}
use my_stream_out_app.Streamer.Session.{Session, Flags, Effect, unref}
use my_stream_out_app.Streamer.Server.{
  Boot, Started, refused, preceded, acquire, factory_setup, set_timer, commit, launch, listen,
  mount, serve, boot, gst_pipeline_init,
}
use my_stream_out_app.Streamer.Ledger.{
  same, owns, holds, Conserves, gained, used_up, gained-append, used_up-append, timers,
  timers-append, Loses,
}

-- No server runs, and nothing is left of one.
pub record IsIdle (s : Session) : Type 0 where
  pub no_server : s.handles.server ≡ none
  pub no_loop : s.handles.loop ≡ none
  pub no_context : s.handles.context ≡ none
  pub no_timer : s.handles.periodic_source ≡ none

-- No server runs; the dump timer of a start that failed may be left.
pub record IsResting (s : Session) : Type 0 where
  pub no_server : s.handles.server ≡ none
  pub no_loop : s.handles.loop ≡ none
  pub no_context : s.handles.context ≡ none

pub IsIdle→IsResting : (s : Session) → IsIdle s → IsResting s
IsIdle→IsResting s i = record {
  no_server = i.no_server;
  no_loop = i.no_loop;
  no_context = i.no_context;
}

-- The references to `o` in a list of objects that a call holds.
abbrev among : ℕ → List ℕ → ℕ
among o [] = 0
among o (x ∷ xs) = same o x + among o xs

-- A call that starts out holding some objects accounts for them too, but for a timer that it loses.
abbrev Settles : ℕ → List ℕ → Session → Started → Type 0
Settles o held s r =
    (k : ℕ) × (holds o s.handles + (among o held + gained o r.effects)
      ≡ holds o r.session.handles + used_up o r.effects + k)
    × (k ≤ owns o s.handles.periodic_source)
    × (k + owns o r.session.handles.periodic_source
        ≤ owns o s.handles.periodic_source + timers o r.effects)

unref_all :
    (o : ℕ) (held : List ℕ)
    → (used_up o (map unref held) ≡ among o held) × (gained o (map unref held) ≡ 0)
unref_all o [] = (refl, refl)
unref_all o (x ∷ held) = (omega (arith, (unref_all o held).0), (unref_all o held).1)

refused-Settles : (o : ℕ) (held : List ℕ) (s : Session) → Settles o held s (refused s held)
refused-Settles o held s = (0, omega (arith, unref_all o held), omega arith, omega arith)

acquire-Settles :
    (o : ℕ) (x : Option ℕ) (held : List ℕ) (s : Session) (k : ℕ → Started)
    → ((y : ℕ) → Settles o (y ∷ held) s (k y))
    → Settles o held s (acquire x held s k)
acquire-Settles o none held s k h = refused-Settles o held s
acquire-Settles o (some y) held s k h = let (n, a, b, c) = h y in (n, omega arith, b, omega arith)

set_timer_total :
    (o : ℕ) (s : Session) (b : Boot) (c : ℕ)
    → IsResting s
    → let (s', es) = set_timer s b c in
      (holds o s.handles + gained o es ≡ holds o s'.handles + owns o s.handles.periodic_source)
      × (used_up o es ≡ 0)
      × (owns o s'.handles.periodic_source ≤ timers o es)
      × IsResting s'
unfolding set_timer
set_timer_total o s b c i = elim (Bool-cases s.flags.periodic_dump_enable) [
  | inl e ↦
      simp (e, set_timer)
        (
          omega arith,
          refl,
          omega arith,
          record { no_server = i.no_server; no_loop = i.no_loop; no_context = i.no_context },
        )
  | inr e ↦
      simp (e, set_timer)
        (
          omega arith,
          refl,
          omega arith,
          record { no_server = i.no_server; no_loop = i.no_loop; no_context = i.no_context },
        )
]

launch-Settles :
    (o : ℕ) (s : Session) (b : Boot) (p : Text) (v l c : ℕ)
    → IsResting s
    → Settles o (v ∷ l ∷ c ∷ []) s (launch s b p v l c)
unfolding launch commit
launch-Settles o s b p v l c i = elim (Bool-cases b.thread_ok) [
  | inl e ↦
      let (t, u, w, j) = set_timer_total o s b c i in
      simp (e, gained-append, used_up-append, timers-append, launch)
        (
          owns o s.handles.periodic_source,
          omega (
            arith,
            t,
            u,
            ap (owns o) j.no_server,
            ap (owns o) j.no_loop,
            ap (owns o) j.no_context,
          ),
          omega arith,
          omega (arith, w),
        )
  | inr e ↦
      let (t, u, w, j) = set_timer_total o s b c i in
      simp (e, gained-append, used_up-append, timers-append, launch)
        (owns o s.handles.periodic_source, omega (arith, t, u), omega arith, omega (arith, w))
]

preceded-Settles :
    (o : ℕ) (es : List Effect) (held : List ℕ) (s : Session) (r : Started)
    → gained o es ≡ 0
    → used_up o es ≡ 0
    → timers o es ≡ 0
    → Settles o held s r
    → Settles o held s (preceded es r)
preceded-Settles o es held s r g u t (n, a, b, c) = (
  n,
  omega (arith, gained-append o es r.effects, used_up-append o es r.effects),
  b,
  omega (arith, timers-append o es r.effects),
)

factory_setup_total :
    (o : ℕ) (fl : Flags) (f : ℕ) (p : Text)
    → (gained o (factory_setup fl f p) ≡ 0)
      × (used_up o (factory_setup fl f p) ≡ 0)
      × (timers o (factory_setup fl f p) ≡ 0)
factory_setup_total o fl f p = ground arith

listen-Settles :
    (o : ℕ) (s : Session) (b : Boot) (p : Text) (v l c : ℕ)
    → IsResting s
    → Settles o (v ∷ l ∷ c ∷ []) s (listen s b p v l c)
unfolding listen
listen-Settles o s b p v l c i =
    acquire-Settles o b.server_source (v ∷ l ∷ c ∷ []) s _
      λ src. let (n, x, y, z) = launch-Settles o s b p v l c i in (n, omega arith, y, omega arith)

mount-Settles :
    (o : ℕ) (s : Session) (b : Boot) (p : Text) (f v l c : ℕ)
    → IsResting s
    → Settles o (f ∷ v ∷ l ∷ c ∷ []) s (mount s b p f v l c)
unfolding mount
mount-Settles o s b p f v l c i =
    acquire-Settles o b.mounts (f ∷ v ∷ l ∷ c ∷ []) s _
      λ m. let (n, x, y, z) = listen-Settles o s b p v l c i in (n, omega arith, y, omega arith)

serve-Settles :
    (o : ℕ) (s : Session) (b : Boot) (p : Text) (v l c : ℕ)
    → IsResting s
    → Settles o (v ∷ l ∷ c ∷ []) s (serve s b p v l c)
unfolding serve
serve-Settles o s b p v l c i = acquire-Settles o b.factory (v ∷ l ∷ c ∷ []) s _ λ f.
    let (g, u, t) = factory_setup_total o s.flags f p in
    preceded-Settles o (factory_setup s.flags f p) (f ∷ v ∷ l ∷ c ∷ []) s (mount s b p f v l c) g u
      t (mount-Settles o s b p f v l c i)

boot-Settles :
    (o : ℕ) (s : Session) (b : Boot) (p : Text) → IsResting s → Settles o [] s (boot s b p)
unfolding boot
boot-Settles o s b p i = acquire-Settles o b.context [] s _ λ c.
    acquire-Settles o b.loop (c ∷ []) s _ λ l.
      acquire-Settles o b.server (l ∷ c ∷ []) s _
        λ v. let (n, x, y, z) = serve-Settles o s b p v l c i in (n, omega arith, y, omega arith)

-- With no server running, nativeGstPipelineInit, wherever it fails, loses at most the reference to the
-- dump timer that the state before owned.
pub gst_pipeline_init-Loses :
    (o : ℕ) (s : Session) (b : Boot)
    → IsResting s
    → let r = gst_pipeline_init s b in Loses o s (r.session, r.effects)
unfolding gst_pipeline_init
gst_pipeline_init-Loses o s b i = elim (Option-cases b.pipeline) [
  | inl e ↦ simp (e, gst_pipeline_init) (0, omega arith, omega arith, omega arith)
  | inr (p, e) ↦
      let (n, x, y, z) = boot-Settles o s b p i in
      simp (e, i.no_server, gst_pipeline_init)
        (n, omega (arith, ap (owns o) i.no_server), y, omega arith)
]

-- With no server running and nothing left of one, nativeGstPipelineInit takes and gives up references
-- to every object in step with the pointers that own them, wherever it fails.
pub gst_pipeline_init-Conserves :
    (o : ℕ) (s : Session) (b : Boot)
    → IsIdle s
    → let r = gst_pipeline_init s b in Conserves o s (r.session, r.effects)
gst_pipeline_init-Conserves o s b i =
    let (n, x, y, z) = gst_pipeline_init-Loses o s b (IsIdle→IsResting s i) in
    omega (arith, ap (owns o) i.no_timer)
