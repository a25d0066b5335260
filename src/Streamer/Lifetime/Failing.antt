-- ===== src/Streamer/Lifetime/Failing.antt =====
-- Lifetimes in which a start may also fail to create its thread.
use my_stream_out_app.Base.{
  ℕ, ◌+◌, ◌≡◌, ◌≤◌, ◌⊎◌, refl, inl, inr, ap, ◌∙◌, false, some, List, [], ◌++◌, arith, Option-cases,
}
use my_stream_out_app.Streamer.Session.{Session, Effect, Ran, initial}
use my_stream_out_app.Streamer.Audio.{Smoothing}
use my_stream_out_app.Streamer.Server.{Boot, gst_pipeline_init}
use my_stream_out_app.Streamer.Ledger.{
  owns, holds, gained, used_up, timers, Loses, gained-append, used_up-append, timers-append,
}
use my_stream_out_app.Streamer.Ledger.Sessions.{
  IsResting, IsIdle→IsResting, gst_pipeline_init-Loses,
}
use my_stream_out_app.Streamer.Lifetime.{Step}
use my_stream_out_app.Streamer.Lifetime.Settled.{SameServer, gst_pipeline_init-Outcome}
use my_stream_out_app.Streamer.Lifetime.Balance.{Step-Kept}

pub data Attempt (m : Smoothing) (s : Session) : Ran → Type 0 where
  step : {r : Ran} → Step m s r → Attempt m s r
  start_fails :
      (b : Boot)
      → b.thread_ok ≡ false
      → Attempt m s ((gst_pipeline_init s b).session, (gst_pipeline_init s b).effects)

-- The state after some attempts, and the calls that they made.
pub data Attempts (m : Smoothing) (s : Session) : Session → List Effect → Type 0 where
  none_yet : Attempts m s s []
  one_more :
      {t u : Session} {es es' all : List Effect}
      → Attempts m s t es
      → Attempt m t (u, es')
      → all ≡ es ++ es'
      → Attempts m s u all

-- A server runs, or nothing but a dump timer may be left of one.
abbrev pub IsUp : Session → Type 0
IsUp s = ((v : ℕ) × (s.handles.server ≡ some v)) ⊎ IsResting s

SameServer-IsUp : (s s' : Session) → SameServer s s' → IsUp s → IsUp s'
SameServer-IsUp s s' (a, b, c) (inl (v, e)) = inl (v, a ∙ e)
SameServer-IsUp s s' (a, b, c) (inr i) =
    inr (record {
      no_server = a ∙ i.no_server;
      no_loop = b ∙ i.no_loop;
      no_context = c ∙ i.no_context;
    })

-- What an attempt does to the references to `o`, and to the server.
abbrev Bounded : ℕ → Session → Ran → Type 0
Bounded o s r = Loses o s r × IsUp r.0

gst_pipeline_init-Bounded :
    (o : ℕ) (s : Session) (b : Boot)
    → IsUp s
    → Bounded o s ((gst_pipeline_init s b).session, (gst_pipeline_init s b).effects)
unfolding gst_pipeline_init
gst_pipeline_init-Bounded o s b (inr i) = (gst_pipeline_init-Loses o s b i, up)
  where
    up : IsUp (gst_pipeline_init s b).session
    up = elim (gst_pipeline_init-Outcome s b) [
      | inl r ↦ inl r
      | inr (k, r) ↦ SameServer-IsUp s (gst_pipeline_init s b).session k (inr i)
    ]
gst_pipeline_init-Bounded o s b (inl (v, h)) = elim (Option-cases b.pipeline) [
  | inl n ↦ simp (n, gst_pipeline_init) ((0, omega arith, omega arith, omega arith), inl (v, h))
  | inr (p, n) ↦
      simp (n, h, gst_pipeline_init) ((0, omega arith, omega arith, omega arith), inl (v, refl))
]

Attempt-Bounded :
    (o : ℕ) (m : Smoothing) (s : Session) (r : Ran) → Attempt m s r → IsUp s → Bounded o s r
Attempt-Bounded o m s _ (start_fails b e) h = gst_pipeline_init-Bounded o s b h
Attempt-Bounded o m s r (step st) h = elim (Step-Kept o m s r st) [
  | inl (a, inl (x, y, z, w)) ↦ (
    (0, omega arith, omega arith, omega (arith, ap (owns o) w)),
    SameServer-IsUp s r.0 (x, y, z) h,
  )
  | inl (a, inr i) ↦ (
    (0, omega arith, omega arith, omega (arith, ap (owns o) i.no_timer)),
    inr (IsIdle→IsResting r.0 i),
  )
  | inr (b, e, q) ↦ rw (q) (gst_pipeline_init-Bounded o s b h)
]

-- What holds after any attempts.
abbrev Within : ℕ → Session → List Effect → Type 0
Within o s es =
    (holds o s.handles + used_up o es ≤ gained o es)
    × (gained o es + owns o s.handles.periodic_source
        ≤ holds o s.handles + used_up o es + timers o es)
    × IsUp s

Attempts-Within :
    (o : ℕ) (m : Smoothing) (s : Session) (es : List Effect)
    → Attempts m initial s es
    → Within o s es
Attempts-Within o m _ _ none_yet =
    (omega arith, omega arith, inr (record { no_server = refl; no_loop = refl; no_context = refl }))
Attempts-Within o m v all (one_more {t} {u} {es} {es'} h a e) =
    let (x, y, i) = Attempts-Within o m t es h in
    let ((k, b, c, d), j) = Attempt-Bounded o m t (v, es') a i in
    rw (e) (simp (gained-append, used_up-append, timers-append) (omega arith, omega arith, j))

-- Along every run from the initial state in which starts may also fail to create their thread (a play
-- request finds no pipeline cached but its own), no object is given up or still owned more often than
-- a reference to it was taken, and no reference is lost but one for each time that the object was made
-- as a dump timer: every other object balances.
pub Attempts-balance :
    (o : ℕ) (m : Smoothing) (s : Session) (es : List Effect)
    → Attempts m initial s es
    → (holds o s.handles + used_up o es ≤ gained o es)
      × (gained o es ≤ holds o s.handles + used_up o es + timers o es)
Attempts-balance o m s es h = let (x, y, i) = Attempts-Within o m s es h in (x, omega arith)
