-- ===== src/Streamer/Ledger.antt =====
-- The references that the module holds. Every call that hands one over (`gain`) and every call that
-- uses one up (`unref`, `give`) is counted, one object at a time.
pub mod Handlers
pub mod Requests
pub mod Sessions
pub mod Timer
use my_stream_out_app.Base.{
  ℕ, ◌+◌, ◌≡◌, ◌≤◌, Option, none, some, List, [], ◌∷◌, ◌++◌, map, arith, ◌==◌, if◌then◌else◌,
}
use my_stream_out_app.Streamer.Session.{Session, Handles, Effect, gain, unref, give, timer, Ran}

-- 1 for the object itself.
pub same : ℕ → ℕ → ℕ
same o x = if o == x then 1 else 0

-- References to `o` that a pointer owns.
abbrev pub owns : ℕ → Option ℕ → ℕ
owns o none = 0
owns o (some x) = same o x

-- References to `o` that the module's pointers own.
abbrev pub holds : ℕ → Handles → ℕ
holds o h =
    owns o h.server
    + owns o h.loop
    + owns o h.context
    + owns o h.periodic_source
    + owns o h.full_pipeline
    + owns o h.appsrc
    + owns o h.audio_appsrc

abbrev pub gained : ℕ → List Effect → ℕ
gained o [] = 0
gained o (gain x ∷ es) = same o x + gained o es
gained o (_ ∷ es) = gained o es

abbrev pub used_up : ℕ → List Effect → ℕ
used_up o [] = 0
used_up o (unref x ∷ es) = same o x + used_up o es
used_up o (give x ∷ es) = same o x + used_up o es
used_up o (_ ∷ es) = used_up o es

-- How often `o` was made as a dump timer.
abbrev pub timers : ℕ → List Effect → ℕ
timers o [] = 0
timers o (timer x n ∷ es) = same o x + timers o es
timers o (_ ∷ es) = timers o es

-- No reference to `o` is lost and none is given up twice.
abbrev pub Conserves : ℕ → Session → Ran → Type 0
Conserves o s (s', es) = holds o s.handles + gained o es ≡ holds o s'.handles + used_up o es

-- The pointers that a running server keeps.
abbrev pub Keeps : Session → Session → Type 0
Keeps s s' =
    (s'.handles.server ≡ s.handles.server)
    × (s'.handles.loop ≡ s.handles.loop)
    × (s'.handles.context ≡ s.handles.context)
    × (s'.handles.periodic_source ≡ s.handles.periodic_source)

pub gained-append : (o : ℕ) (xs ys : List Effect) → gained o (xs ++ ys) ≡ gained o xs + gained o ys
gained-append o [] ys = omega arith
gained-append o (x ∷ xs) ys = ground (arith, gained-append o xs ys)

pub used_up-append :
    (o : ℕ) (xs ys : List Effect) → used_up o (xs ++ ys) ≡ used_up o xs + used_up o ys
used_up-append o [] ys = omega arith
used_up-append o (x ∷ xs) ys = ground (arith, used_up-append o xs ys)

pub timers-append : (o : ℕ) (xs ys : List Effect) → timers o (xs ++ ys) ≡ timers o xs + timers o ys
timers-append o [] ys = omega arith
timers-append o (x ∷ xs) ys = ground (arith, timers-append o xs ys)

-- Some references to `o` are lost, all of them the dump timer's that the state before owned; and the
-- timer that the state after owns is new or was not lost.
abbrev pub Loses : ℕ → Session → Ran → Type 0
Loses o s (s', es) =
    (k : ℕ) × (holds o s.handles + gained o es ≡ holds o s'.handles + used_up o es + k)
    × (k ≤ owns o s.handles.periodic_source)
    × (k + owns o s'.handles.periodic_source ≤ owns o s.handles.periodic_source + timers o es)

pub ruleset totals = (gained-append, used_up-append)
