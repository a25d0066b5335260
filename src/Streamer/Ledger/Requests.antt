-- ===== src/Streamer/Ledger/Requests.antt =====
-- The references over a play request.
use my_stream_out_app.Base.{
  ℕ, ◌+◌, ◌≡◌, ◌⊎◌, refl, inl, inr, ap, Bool, true, false, Option, none, some, arith, ==_refl,
  Option-cases, Bool-cases,
}
use my_stream_out_app.Streamer.Session.{Session}
use my_stream_out_app.Streamer.Play.{
  PlayRequest, Media, CachesOne, cache_pipeline, play_pipeline, play_in, on_client_play_request,
}
use my_stream_out_app.Streamer.Ledger.{
  same, owns, holds, gained, used_up, Conserves, Keeps, gained-append, used_up-append,
}

-- The cached pipeline, as the caller's part of `CachesOne`.
abbrev pub Fresh : Session → ℕ → Type 0
Fresh s p = (s.handles.full_pipeline ≡ none) ⊎ (s.handles.full_pipeline ≡ some p)

pub cache_pipeline-Conserves :
    (o : ℕ) (s : Session) (p : ℕ)
    → Fresh s p
    → Conserves o s (cache_pipeline s p) × Keeps s (cache_pipeline s p).0
unfolding cache_pipeline
cache_pipeline-Conserves o s p (inl e) =
    simp (e, cache_pipeline) (omega (arith, ap (owns o) e), (refl, refl, refl, refl))
cache_pipeline-Conserves o s p (inr e) =
    simp (e, ==_refl p, cache_pipeline) (omega (arith, ap (owns o) e), (refl, refl, refl, refl))

-- The rest of the request gives up the caller's reference to the pipeline.
play_pipeline-Conserves :
    (o : ℕ) (s : Session) (q : PlayRequest) (m : Media) (p : ℕ)
    → Fresh s p
    → let r = play_pipeline s q m p in
      (holds o s.handles + (same o p + gained o r.effects)
        ≡ holds o r.session.handles + used_up o r.effects)
      × Keeps s r.session
unfolding play_pipeline
play_pipeline-Conserves o s q m p h =
    let (a, k) = cache_pipeline-Conserves o s p h in
    elim (Bool-cases m.latency_recalc_done) [
      | inl e ↦ simp (e, gained-append, used_up-append, play_pipeline) (omega (arith, a), k)
      | inr e ↦ simp (e, gained-append, used_up-append, play_pipeline) (omega (arith, a), k)
    ]

play_in-Conserves :
    (o : ℕ) (s : Session) (q : PlayRequest) (m : Media) (u : ℕ) (x : Option (ℕ × Bool))
    → ((p : ℕ) → x ≡ some (p, true) → Fresh s p)
    → let r = play_in s q m u x in Conserves o s (r.session, r.effects) × Keeps s r.session
unfolding play_in
play_in-Conserves o s q m u none h = (omega arith, (refl, refl, refl, refl))
play_in-Conserves o s q m u (some (p, false)) h = (omega arith, (refl, refl, refl, refl))
play_in-Conserves o s q m u (some (p, true)) h =
    let (a, k) = play_pipeline-Conserves o s q m p (h p refl) in (omega (arith, a), k)

pub on_client_play_request-Conserves :
    (o : ℕ) (s : Session) (q : PlayRequest) (m : Media)
    → CachesOne s q
    → let r = on_client_play_request s q m in
      Conserves o s (r.session, r.effects) × Keeps s r.session
unfolding on_client_play_request
on_client_play_request-Conserves o s q m c = elim (Bool-cases q.has_media) [
  | inr n ↦ simp (n, on_client_play_request) (omega arith, (refl, refl, refl, refl))
  | inl n ↦ elim (Option-cases q.user_bin) [
    | inl e ↦ simp (n, e, on_client_play_request) (omega arith, (refl, refl, refl, refl))
    | inr (u, e) ↦ simp (n, e, on_client_play_request) (play_in-Conserves o s q m u q.parent c)
  ]
]
