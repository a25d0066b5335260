-- ===== src/Streamer/Threads/Balance.antt =====
-- The references while calls are under way: those of the session's pointers, and those of the local
-- variables of each call.
use my_stream_out_app.Base.{
  ℕ, ◌+◌, ◌≡◌, ◌⊎◌, refl, inl, inr, Bool, true, false, none, some, Option, List, [], ◌∷◌, ◌++◌,
  arith, Option-cases, Bool-cases,
}
use my_stream_out_app.Streamer.Session.{Session, Effect, initial}
use my_stream_out_app.Streamer.Audio.{Smoothing}
use my_stream_out_app.Streamer.Media.{MediaBin, find_video}
use my_stream_out_app.Streamer.Play.{Media}
use my_stream_out_app.Streamer.Stop.{stop_locked, stop_rest}
use my_stream_out_app.Streamer.Ledger.{same, owns, holds, gained, used_up, Keeps, totals}
use my_stream_out_app.Streamer.Ledger.Sessions.{IsIdle}
use my_stream_out_app.Streamer.Ledger.Handlers.{
  configure_commit-Consumes, rtcp_feedback_if-IsBalanced, set_up_video-Neutral, counts,
}
use my_stream_out_app.Streamer.Ledger.Requests.{Fresh, cache_pipeline-Conserves}
use my_stream_out_app.Streamer.Lifetime.Settled.{IsSettled, IsSettled-Keeps, configure_commit-Keeps}
use my_stream_out_app.Streamer.Lifetime.Balance.{Step-Sound, initial-IsSettled}
use my_stream_out_app.Streamer.Threads.{
  Call, stops, configures, plays, dumps, dumps_now, Thread, stop_next, caps_next, commit_next,
  play_next, on_demand_next, appsrcs_next, walk_next, Part, configure_begin, play_begin, dump_begin,
  dump_now_begin, begin, resume, Fits, add, Move, at_once, begins, resumes, Moves, stay, move,
}

-- References to `o` that the local variables of a call own.
abbrev pub keeps : ℕ → Thread → ℕ
keeps o (stop_next k) = owns o k.server + owns o k.loop + owns o k.context
keeps o (caps_next mode found m) = owns o found
keeps o (commit_next mode found m) = owns o found
keeps o (play_next p media) = same o p
keeps o (on_demand_next p) = same o p
keeps o (appsrcs_next p q) = same o p + owns o q
keeps o (walk_next p v a q) = same o p + owns o v + owns o a + owns o q

abbrev pub keep_all : ℕ → List Thread → ℕ
keep_all o [] = 0
keep_all o (t ∷ ts) = keeps o t + keep_all o ts

abbrev keeps_next : ℕ → Option Thread → ℕ
keeps_next o none = 0
keeps_next o (some t) = keeps o t

-- A part that starts from `k` references in local variables keeps count.
abbrev Counts : ℕ → ℕ → Session → Part → Type 0
Counts o k s r =
    (holds o s.handles + (k + gained o r.effects)
      ≡ holds o r.session.handles + (keeps_next o r.next + used_up o r.effects))
    × (Keeps s r.session ⊎ IsIdle r.session)

same_server : (s : Session) → Keeps s s ⊎ IsIdle s
same_server s = inl (refl, refl, refl, refl)

configure_begin-Counts : (o : ℕ) (s : Session) (m : MediaBin) → Counts o 0 s (configure_begin s m)
unfolding configure_begin
configure_begin-Counts o s m = elim (Option-cases m.bin) [
  | inl n ↦ simp (n, configure_begin) (omega arith, same_server s)
  | inr (b, n) ↦ elim (Option-cases (find_video s.format.stream_mode m)) [
    | inl e ↦ simp (n, e, configure_begin) (omega arith, same_server s)
    | inr (x, e) ↦
        simp (n, e, configure_begin)
          (
            simp counts
                (omega (arith, rtcp_feedback_if-IsBalanced o s.format.stream_mode s.flags m)),
            same_server s,
          )
  ]
]

play_begin-Counts :
    (o : ℕ) (s : Session) (media : Media) (u : ℕ) (x : Option (ℕ × Bool))
    → ((p : ℕ) → x ≡ some (p, true) → Fresh s p)
    → Counts o 0 s (play_begin s media u x)
unfolding play_begin
play_begin-Counts o s media u none h = (omega arith, same_server s)
play_begin-Counts o s media u (some (p, false)) h = (omega arith, same_server s)
play_begin-Counts o s media u (some (p, true)) h =
    let (a, k) = cache_pipeline-Conserves o s p (h p refl) in (omega (arith, a), inl k)

begin-Counts : (o : ℕ) (s : Session) (c : Call) → Fits s c → Counts o 0 s (begin s c)
unfolding begin stop_locked dump_begin dump_now_begin
begin-Counts o s stops h = (
  ground arith,
  inr (record { no_server = refl; no_loop = refl; no_context = refl; no_timer = refl }),
)
begin-Counts o s (configures m) h = configure_begin-Counts o s m
begin-Counts o s (plays q media) h = elim (Bool-cases q.has_media) [
  | inr n ↦ simp (n, begin) (omega arith, same_server s)
  | inl n ↦ elim (Option-cases q.user_bin) [
    | inl e ↦ simp (n, e, begin) (omega arith, same_server s)
    | inr (u, e) ↦ simp (n, e, begin) (play_begin-Counts o s media u q.parent h)
  ]
]
begin-Counts o s dumps h = elim (Option-cases s.handles.full_pipeline) [
  | inl n ↦ ground (arith, same_server s)
  | inr (p, n) ↦ ground (arith, same_server s)
]
begin-Counts o s dumps_now h = elim (Option-cases s.handles.full_pipeline) [
  | inl n ↦ ground (arith, same_server s)
  | inr (p, n) ↦ ground (arith, same_server s)
]

resume-Counts : (o : ℕ) (s : Session) (t : Thread) → Counts o (keeps o t) s (resume s t)
unfolding resume stop_rest dump_begin
resume-Counts o s (stop_next k) = (ground arith, inl (refl, refl, refl, refl))
resume-Counts o s (caps_next mode found m) =
    (simp totals (omega (arith, set_up_video-Neutral o s.format found)), same_server s)
resume-Counts o s (commit_next mode found m) = (
  omega (arith, configure_commit-Consumes o s mode found m),
  inl (configure_commit-Keeps s mode found m),
)
resume-Counts o s (play_next p media) = (ground arith, same_server s)
resume-Counts o s (on_demand_next q) = elim (Option-cases s.handles.full_pipeline) [
  | inl n ↦ ground (arith, same_server s)
  | inr (p, n) ↦ ground (arith, same_server s)
]
resume-Counts o s (appsrcs_next p q) = (simp counts (omega arith), same_server s)
resume-Counts o s (walk_next p v a q) = (simp counts (omega arith), inl (refl, refl, refl, refl))

keep_all-add :
    (o : ℕ) (x : Option Thread) (ts : List Thread)
    → keep_all o (add x ts) ≡ keeps_next o x + keep_all o ts
keep_all-add o none ts = omega arith
keep_all-add o (some t) ts = refl

keep_all-append :
    (o : ℕ) (xs ys : List Thread) → keep_all o (xs ++ ys) ≡ keep_all o xs + keep_all o ys
keep_all-append o [] ys = omega arith
keep_all-append o (x ∷ xs) ys = omega (arith, keep_all-append o xs ys)

IsSettled-part : (s s' : Session) → Keeps s s' ⊎ IsIdle s' → IsSettled s → IsSettled s'
IsSettled-part s s' (inl k) i = IsSettled-Keeps s s' k i
IsSettled-part s s' (inr j) i = inr j

-- What a move does to the references and to the server.
abbrev Kept : ℕ → Session → List Thread → Session → List Thread → List Effect → Type 0
Kept o s ts s' ts' es =
    (holds o s.handles + (keep_all o ts + gained o es)
      ≡ holds o s'.handles + (keep_all o ts' + used_up o es))
    × IsSettled s'

Move-Kept :
    (o : ℕ) (m : Smoothing) (s : Session) (ts : List Thread) (s' : Session) (ts' : List Thread)
    (es : List Effect)
    → Move m s ts s' ts' es
    → IsSettled s
    → Kept o s ts s' ts' es
Move-Kept o m s ts s' _ es (at_once st) i =
    let (a, j) = Step-Sound o m s (s', es) st i in (omega (arith, a), j)
Move-Kept o m s ts _ _ _ (begins c f) i =
    let (a, j) = begin-Counts o s c f in
    (omega (arith, a, keep_all-add o (begin s c).next ts), IsSettled-part s (begin s c).session j i)
Move-Kept o m s ts _ _ _ (resumes before t after e) i =
    let (a, j) = resume-Counts o s t in
    (
      rw (e) (
          omega (
            arith,
            a,
            keep_all-append o before (t ∷ after),
            keep_all-append o before (add (resume s t).next after),
            keep_all-add o (resume s t).next after,
          )),
      IsSettled-part s (resume s t).session j i,
    )

pub Moves-Kept :
    (o : ℕ) (m : Smoothing) (s : Session) (ts : List Thread) (s' : Session) (ts' : List Thread)
    (es : List Effect)
    → Moves m s ts s' ts' es
    → IsSettled s
    → Kept o s ts s' ts' es
Moves-Kept o m s ts _ _ _ stay i = (omega arith, i)
Moves-Kept o m s ts v vs all (move {t} {u} {us} {es} {es'} h k e) i =
    let (a, j) = Moves-Kept o m s ts t us es h i in
    let (b, l) = Move-Kept o m t us v vs es' k j in (rw (e) (simp totals (omega (arith, a, b))), l)

-- However the parts of stops, of media that are configured, of play requests and of dumps come between
-- each other and between whole steps of any kind, from the initial state on (each start can create its
-- thread, and a play request finds no pipeline cached but its own), for every object the references
-- that the module has been given are those that its pointers own, those that the local variables of the
-- calls under way own, and those that it has given up.
pub Moves-balance :
    (o : ℕ) (m : Smoothing) (s : Session) (ts : List Thread) (es : List Effect)
    → Moves m initial [] s ts es
    → gained o es ≡ holds o s.handles + (keep_all o ts + used_up o es)
Moves-balance o m s ts es h =
    omega (arith, (Moves-Kept o m initial [] s ts es h initial-IsSettled).0)
