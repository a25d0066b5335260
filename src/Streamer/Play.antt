-- ===== src/Streamer/Play.antt =====
-- on_client_play_request of app/src/main/cpp/camera2_gst_streamer.cpp: the pipeline is cached, its
-- elements get their properties in two passes, and its latency is recalculated once for each media.
-- What GStreamer answers is a parameter; logging is left out.
pub mod Scan
pub mod Live
pub mod Tuned
pub mod Once
use my_stream_out_app.Base.{
  ℕ, zero, suc, Bool, true, false, ◌&&◌, ◌||◌, Option, none, some, List, [], ◌∷◌, ◌++◌, ◌==◌,
  if◌then◌else◌, ◌≡◌, ◌⊎◌,
}
use my_stream_out_app.Base.Int.{ℤ}
use my_stream_out_app.Base.Text.{Text, codes, has_prefix}
use my_stream_out_app.Streamer.Session.{Session, Effect, gain, unref, recalculate_latency, Ran}

-- An element's type and those of its properties that the passes look at; `none` is a property that
-- its class does not have.
pub record Element : Type 0 where
  pub type_name : Text
  pub ts_offset : Option ℤ
  pub sync : Option Bool
  pub async : Option Bool
  pub processing_deadline : Option ℕ
  pub do_lost : Option Bool
  pub buffer_mode : Option ℕ
  pub latency : Option ℕ
  pub ntp_time_source : Option ℕ
  pub size_time : Option ℕ

-- g_object_class_find_property
abbrev pub has {ℓ} : {A : Type ℓ} → Option A → Bool
has none = false
has (some x) = true

-- g_object_set leaves an object without the property alone.
abbrev pub set {ℓ} : {A : Type ℓ} → A → Option A → Option A
set v none = none
set v (some x) = some v

-- A flag that is on is switched off.
abbrev pub switch_off : Option Bool → Option Bool
switch_off none = none
switch_off (some v) = if v then some false else some v

-- The first pass, at one element: sinks neither wait for the clock nor for preroll.
unfoldable pub relax : Element → Element
relax e =
    if has e.ts_offset || has e.sync
    then record e {
      sync = switch_off e.sync;
      async = switch_off e.async;
      processing_deadline = set 0 e.processing_deadline;
    }
    else e

-- A g_object_set of several properties stops at the first that the element has not got.
abbrev pub lose_late : Bool → Element → Element
lose_late buffer_none e =
    if has e.do_lost
    then (if buffer_none
        then record e {
          do_lost = set false e.do_lost;
          buffer_mode = set 0 e.buffer_mode;
          latency = set 0 e.latency;
        }
        else record e { do_lost = set false e.do_lost; latency = set 0 e.latency })
    else e

abbrev pub relax_rtpbin : Bool → Element → Element
relax_rtpbin mode_none e =
    if has_prefix e.type_name (codes "GstRtpBin") || has e.do_lost
    then lose_late (mode_none && has e.buffer_mode) e
    else e

abbrev pub set_ntp_source : Element → Element
set_ntp_source e = record e { ntp_time_source = set 0 e.ntp_time_source }

abbrev pub drop_storage : Element → Element
drop_storage e =
    if has e.size_time && has_prefix e.type_name (codes "GstRtpStorage")
    then record e { size_time = set 0 e.size_time }
    else e

-- The second pass, at one element, under the flag s_rtpbin_buffer_mode_none.
unfoldable pub configure_rtp : Bool → Element → Element
configure_rtp mode_none e = drop_storage (set_ntp_source (relax_rtpbin mode_none e))

-- What gst_iterator_next answers: the element with a number, no element, a pipeline that has changed
-- in between, or the end.
pub data Answer : Type 0 where
  element : ℕ → Answer
  no_element resync done failed : Answer

abbrev pub modify {ℓ} : {A : Type ℓ} → (A → A) → ℕ → List A → List A
modify f i [] = []
modify f zero (x ∷ xs) = f x ∷ xs
modify f (suc i) (x ∷ xs) = x ∷ modify f i xs

-- A loop over the iterator; a resync starts it again, so an element may come up twice.
unfoldable pub scan : (Element → Element) → List Answer → List Element → List Element
scan f [] es = es
scan f (element i ∷ answers) es = scan f answers (modify f i es)
scan f (no_element ∷ answers) es = scan f answers es
scan f (resync ∷ answers) es = scan f answers es
scan f (done ∷ answers) es = es
scan f (failed ∷ answers) es = es

-- A media's pipeline and its "latency-recalc-done".
pub record Media : Type 0 where
  pub elements : List Element
  pub latency_recalc_done : Bool

-- What a play_pipeline request finds: whether the context names a media, the user bin, its parent with whether
-- that is a bin, and the answers of the iterators (`none` when there is no iterator).
pub record PlayRequest : Type 0 where
  pub has_media : Bool
  pub user_bin : Option ℕ
  pub parent : Option (ℕ × Bool)
  pub first_pass : Option (List Answer)
  pub second_pass : Option (List Answer)

pub record Played : Type 0 where
  pub session : Session
  pub media : Media
  pub effects : List Effect

-- One reference for each new pipeline.
unfoldable pub cache_pipeline : Session → ℕ → Ran
cache_pipeline s p = elim s.handles.full_pipeline [
  | none ↦ (record s { handles = record s.handles { full_pipeline = some p } }, gain p ∷ [])
  | some q ↦
      if q == p
      then (s, [])
      else (record s { handles = record s.handles { full_pipeline = some p } }, gain p ∷ [])
]

-- The second pass runs only where the first had an iterator.
unfoldable pub passes : Bool → PlayRequest → List Element → List Element
unfolding relax configure_rtp scan
passes mode_none q es = elim q.first_pass [
  | none ↦ es
  | some answers ↦
      let relaxed = scan relax answers es in
      elim q.second_pass [
        | none ↦ relaxed
        | some answers' ↦ scan (configure_rtp mode_none) answers' relaxed
      ]
]

abbrev pub recalculate : ℕ → Media → List Effect
recalculate p m = if m.latency_recalc_done then [] else recalculate_latency p ∷ []

-- From the cache to the end.
unfoldable pub play_pipeline : Session → PlayRequest → Media → ℕ → Played
unfolding cache_pipeline passes
play_pipeline s q m p =
    let (s', cached) = cache_pipeline s p in
    record {
      session = s';
      media = record {
        elements = passes s.flags.rtpbin_buffer_mode_none q m.elements;
        latency_recalc_done = true;
      };
      effects = cached ++ (recalculate p m ++ (unref p ∷ []));
    }

-- A request that ends early, with the calls that it has made.
abbrev pub ignored : Session → Media → List Effect → Played
ignored s m es = record { session = s; media = m; effects = es }

abbrev pub after : List Effect → Played → Played
after es r = record r { effects = es ++ r.effects }

unfoldable pub play_in : Session → PlayRequest → Media → ℕ → Option (ℕ × Bool) → Played
unfolding play_pipeline
play_in s q m u none = ignored s m (gain u ∷ unref u ∷ [])
play_in s q m u (some (p, is_bin)) =
    after (gain u ∷ gain p ∷ unref u ∷ [])
      (if is_bin then play_pipeline s q m p else ignored s m (unref p ∷ []))

unfoldable pub on_client_play_request : Session → PlayRequest → Media → Played
unfolding play_in
on_client_play_request s q m =
    if q.has_media
    then elim q.user_bin [ none ↦ ignored s m [] | some u ↦ play_in s q m u q.parent ]
    else ignored s m []

-- The pipeline that a play request reaches is the cached one, or none is cached.
abbrev pub CachesOne : Session → PlayRequest → Type 0
CachesOne s q =
    (p : ℕ)
    → q.parent ≡ some (p, true)
    → (s.handles.full_pipeline ≡ none) ⊎ (s.handles.full_pipeline ≡ some p)
