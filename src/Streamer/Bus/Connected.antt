-- ===== src/Streamer/Bus/Connected.antt =====
-- Which messages reach the bus handler.
use my_stream_out_app.Base.{
  ℕ, ◌+◌, ◌≡◌, refl, Bool, true, false, some, List, [], ◌∷◌, if◌then◌else◌,
}
use my_stream_out_app.Base.Text.{Text, codes, str_eq}
use my_stream_out_app.Streamer.Session.{Session, Effect, connect_bus}
use my_stream_out_app.Streamer.Media.{PreparedMedia, on_media_prepared}
use my_stream_out_app.Streamer.Bus.{
  error, warning, info, Content, trouble, latency, state_changed, other, detail_of,
}

-- How many of the connected handlers a message with this detail runs.
abbrev pub runs : Text → List Effect → ℕ
runs detail [] = 0
runs detail (connect_bus bus d ∷ es) = (if str_eq detail d then 1 else 0) + runs detail es
runs detail (_ ∷ es) = runs detail es

-- The kinds of message that on_bus_message tells apart.
abbrev pub is_handled : Content → Bool
is_handled (other name) = false
is_handled _ = true

-- A message of another kind has another name.
abbrev pub IsNamed : Content → Type 0
IsNamed (other name) =
    (str_eq name (codes "error") ≡ false)
    × (str_eq name (codes "warning") ≡ false)
    × (str_eq name (codes "info") ≡ false)
    × (str_eq name (codes "latency") ≡ false)
    × (str_eq name (codes "state-changed") ≡ false)
IsNamed _ = Unit

runs_each :
    (s : Session) (m : PreparedMedia) (u p b : ℕ) (d : Text)
    → m.user_bin ≡ some u
    → m.parent ≡ some (p, true)
    → m.bus ≡ some b
    → runs d (on_media_prepared s m).1
      ≡ (if str_eq d (codes "sync-message::error") then 1 else 0)
        + ((if str_eq d (codes "sync-message::warning") then 1 else 0)
            + ((if str_eq d (codes "sync-message::info") then 1 else 0)
                + ((if str_eq d (codes "sync-message::latency") then 1 else 0)
                    + ((if str_eq d (codes "sync-message::state-changed") then 1 else 0) + 0))))
unfolding on_media_prepared
runs_each s m u p b d h i j = simp (h, i, j, on_media_prepared) refl

-- After on_media_prepared has found the pipeline and its bus, a message of a kind that on_bus_message
-- tells apart runs that handler once, and any other message does not run it.
pub runs-on_media_prepared :
    (s : Session) (m : PreparedMedia) (u p b : ℕ) (c : Content)
    → IsNamed c
    → m.user_bin ≡ some u
    → m.parent ≡ some (p, true)
    → m.bus ≡ some b
    → runs (detail_of c) (on_media_prepared s m).1 ≡ (if is_handled c then 1 else 0)
unfolding str_eq
runs-on_media_prepared s m u p b (trouble error err dbg) n h i j =
    runs_each s m u p b (codes "sync-message::error") h i j
runs-on_media_prepared s m u p b (trouble warning err dbg) n h i j =
    runs_each s m u p b (codes "sync-message::warning") h i j
runs-on_media_prepared s m u p b (trouble info err dbg) n h i j =
    runs_each s m u p b (codes "sync-message::info") h i j
runs-on_media_prepared s m u p b latency n h i j =
    runs_each s m u p b (codes "sync-message::latency") h i j
runs-on_media_prepared s m u p b (state_changed old new pending) n h i j =
    runs_each s m u p b (codes "sync-message::state-changed") h i j
runs-on_media_prepared s m u p b (other name) (e, w, f, l, t) h i j =
    rw (runs_each s m u p b (detail_of (other name)) h i j) (rw (e, w, f, l, t) refl)
