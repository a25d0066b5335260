-- ===== src/Debug/Line.antt =====
-- A command line that is made of words, from the text to what it does.
use mathlib.Core.Path.{subst}
use my_stream_out_app.Base.{
  ℕ, ◌≡◌, ◌||◌, refl, ◌∙◌, ap, Bool, true, false, Option, none, some, List, [], ◌∷◌, ◌++◌, map,
  arith, ◌==◌, All, if◌then◌else◌,
}
use my_stream_out_app.Base.Text.{Text, codes, has_prefix, str_eq, toupper, atoi}
use my_stream_out_app.Debug.Jni.{Java, set_bool, config_summary}
use my_stream_out_app.Debug.{
  Command, command_names, local_convert_to_upper, index_in, get_index, parse_bool,
  dbg_set_stream_mode, dbg_set_audio_sample_rate, dbg_set_audio_channels, dbg_call_bool_setter,
}
use my_stream_out_app.Debug.Bitrate.{Floating, dbg_set_max_bitrate}
use my_stream_out_app.Debug.Dispatch.{
  Reply, rejected, dump_graph, print_element, inspect, category_level, java, audio_latency, to_java,
  with_token, category, latency, dispatch, run_tokens, reply_to, streamer_debug,
  jni_rtsp_server_debug,
}
use my_stream_out_app.Debug.Tokens.{IsDelimiter, Spells, next_word, delimiter_false, tokens-Spells}

-- What a command does with the words after it.
abbrev pub Meaning : Type 0
Meaning = List Text → Reply

-- The first of the words, without which the command is rejected; the others do not matter.
abbrev pub on_first : (Text → Reply) → Meaning
on_first k [] = rejected
on_first k (t ∷ ts) = k t

abbrev pub is_one_of : Text → List Text → Bool
is_one_of u [] = false
is_one_of u (t ∷ ts) = str_eq u t || is_one_of u ts

-- Yes or no, in upper or lower case or both.
abbrev pub truth : Text → Option Bool
truth s =
    let u = map toupper s in
    if is_one_of u (codes "TRUE" ∷ codes "1" ∷ codes "ON" ∷ codes "YES" ∷ [])
    then some true
    else if is_one_of u (codes "FALSE" ∷ codes "0" ∷ codes "OFF" ∷ codes "NO" ∷ [])
    then some false
    else none

-- A switch of the Java class, by the method that sets it.
abbrev pub switch : Text → Text → Reply
switch method s = elim (truth s) [ none ↦ rejected | some b ↦ java (set_bool method b) ]

-- The switch that is native, too.
abbrev pub latency_switch : Text → Reply
latency_switch s = elim (truth s) [
  | none ↦ rejected
  | some b ↦ audio_latency b (set_bool (codes "setAudioLatencyDebug") b)
]

abbrev pub level_of : Meaning
level_of (name ∷ (level ∷ ts)) = category_level name (atoi level)
level_of _ = rejected

-- The commands by their names.
abbrev pub meanings : Floating → List (Text × Meaning)
meanings F =
    (codes "PRINT_ELEMENT_PROPERTY", on_first print_element)
    ∷ (codes "SET_CATEGORY_DEBUG_LEVEL", level_of)
    ∷ (codes "INSPECT_ELEMENT", on_first inspect)
    ∷ (codes "SET_MAX_BITRATE", on_first (λ s. to_java (dbg_set_max_bitrate F s)))
    ∷ (codes "SET_RTCP_FEEDBACK", on_first (switch (codes "setRtcpFeedback")))
    ∷ (codes "SET_PREFER_H265", on_first (switch (codes "setPreferH265")))
    ∷ (codes "SET_STREAM_MODE", on_first (λ s. to_java (dbg_set_stream_mode s)))
    ∷ (codes "SET_AUDIO_SAMPLE_RATE", on_first (λ s. to_java (dbg_set_audio_sample_rate s)))
    ∷ (codes "SET_AUDIO_CHANNELS", on_first (λ s. to_java (dbg_set_audio_channels s)))
    ∷ (codes "SET_USE_OPUS", on_first (switch (codes "setUseOpus")))
    ∷ (codes "SET_AUDIO_LATENCY_DEBUG", on_first latency_switch)
    ∷ (codes "DUMP_ALL_CONFIG", λ ts. java config_summary)
    ∷ (codes "DUMP_PIPELINE_GRAPH", λ ts. dump_graph)
    ∷ []

parse_bool-truth : (s : Text) → parse_bool s ≡ truth s
unfolding parse_bool toupper
parse_bool-truth s = refl

-- Either answer of the reading of a switch.
to_java-set :
    (method : Text) (x : Option Bool)
    → to_java (elim x [ none ↦ none | some b ↦ some (set_bool method b) ])
      ≡ elim x [ none ↦ rejected | some b ↦ java (set_bool method b) ]
to_java-set method none = refl
to_java-set method (some b) = refl

to_java-switch : (method s : Text) → to_java (dbg_call_bool_setter method s) ≡ switch method s
unfolding dbg_call_bool_setter
to_java-switch method s =
    to_java-set method (parse_bool s)
    ∙ ap (λ x. elim x [ none ↦ rejected | some b ↦ java (set_bool method b) ]) (parse_bool-truth s)

-- What the code makes of the reading of the latency switch, and what the switch does.
abbrev latency_set : Option Bool → Option Java → Reply
latency_set x none = rejected
latency_set x (some j) = elim x [ none ↦ rejected | some b ↦ audio_latency b j ]

abbrev latency_read : Option Bool → Option Java
latency_read x = elim x [ none ↦ none | some b ↦ some (set_bool (codes "setAudioLatencyDebug") b) ]

abbrev latency_done : Option Bool → Reply
latency_done x = elim x [
  | none ↦ rejected
  | some b ↦ audio_latency b (set_bool (codes "setAudioLatencyDebug") b)
]

latency_set-read : (x : Option Bool) → latency_set x (latency_read x) ≡ latency_done x
latency_set-read none = refl
latency_set-read (some b) = refl

latency-set :
    (s : Text) (y : Option Java)
    → dbg_call_bool_setter (codes "setAudioLatencyDebug") s ≡ y
    → latency s ≡ latency_set (parse_bool s) y
latency-set s none e = rw (e, latency) refl
latency-set s (some j) e = rw (e, latency) refl

latency-switch : (s : Text) → latency s ≡ latency_switch s
unfolding dbg_call_bool_setter
latency-switch s =
    latency-set s (latency_read (parse_bool s)) refl
    ∙ (latency_set-read (parse_bool s) ∙ ap latency_done (parse_bool-truth s))

with_token-on_first :
    (k k' : Text → Reply)
    → ((s : Text) → k s ≡ k' s)
    → (ts : List Text) → with_token ts k ≡ on_first k' ts
with_token-on_first k k' h [] = refl
with_token-on_first k k' h (t ∷ ts) = h t

category-level_of : (ts : List Text) → category ts ≡ level_of ts
category-level_of [] = refl
category-level_of (name ∷ []) = refl
category-level_of (name ∷ (level ∷ ts)) = refl

-- A table of commands against one of meanings, row by row.
abbrev Agree : Floating → List (Text × Command) → List (Text × Meaning) → Type 0
Agree F [] [] = Unit
Agree F ((n, c) ∷ table) ((n', k) ∷ ms) =
    (n ≡ n') × ((ts : List Text) → dispatch F c ts ≡ k ts) × Agree F table ms
Agree F _ _ = ⊥

command_names-Agree : (F : Floating) → Agree F command_names (meanings F)
unfolding dispatch
command_names-Agree F = (
  refl,
  with_token-on_first _ _ (λ s. refl),
  (
    refl,
    category-level_of,
    (
      refl,
      with_token-on_first _ _ (λ s. refl),
      (
        refl,
        with_token-on_first _ _ (λ s. refl),
        (
          refl,
          with_token-on_first _ _ (to_java-switch (codes "setRtcpFeedback")),
          (
            refl,
            with_token-on_first _ _ (to_java-switch (codes "setPreferH265")),
            (
              refl,
              with_token-on_first _ _ (λ s. refl),
              (
                refl,
                with_token-on_first _ _ (λ s. refl),
                (
                  refl,
                  with_token-on_first _ _ (λ s. refl),
                  (
                    refl,
                    with_token-on_first _ _ (to_java-switch (codes "setUseOpus")),
                    (
                      refl,
                      with_token-on_first _ _ latency-switch,
                      (refl, (λ ts. refl), (refl, (λ ts. refl), tt)),
                    ),
                  ),
                ),
              ),
            ),
          ),
        ),
      ),
    ),
  ),
)

-- The first row whose name starts with the text.
reply_to-Agree :
    (F : Floating) (table : List (Text × Command)) (u name : Text) (does : Meaning)
    (before after : List (Text × Meaning)) (ts : List Text)
    → Agree F table (before ++ ((name, does) ∷ after))
    → has_prefix name u ≡ true
    → All (λ r. has_prefix r.0 u ≡ false) before
    → reply_to F (index_in table u) ts ≡ does ts
unfolding index_in
reply_to-Agree F [] u name does [] after ts x h k = absurd x
reply_to-Agree F [] u name does (b ∷ bs) after ts x h k = absurd x
reply_to-Agree F ((n, c) ∷ table) u name does [] after ts (e, d, a) h k =
    let same : has_prefix n u ≡ true = ap (λ x. has_prefix x u) e ∙ h in
    simp (same, index_in) (d ts)
reply_to-Agree F ((n, c) ∷ table) u name does ((m, l) ∷ bs) after ts (e, d, a) h (k, ks) =
    let other : has_prefix n u ≡ false = ap (λ x. has_prefix x u) e ∙ k in
    simp (other, index_in) (reply_to-Agree F table u name does bs after ts a h ks)

toupper_plain : (c : ℕ) → ¬ IsDelimiter c → (toupper c == b' ') ≡ false
unfolding toupper
toupper_plain c h = let e = delimiter_false c h in ground arith

upper_plain : (w : Text) → All (λ c. ¬ IsDelimiter c) w → local_convert_to_upper w ≡ map toupper w
unfolding local_convert_to_upper
upper_plain [] h = refl
upper_plain (c ∷ w) (e, h) =
    simp (toupper_plain c e, local_convert_to_upper) (ap (◌∷◌ (toupper c)) (upper_plain w h))

-- The word of a text is free of delimiters.
upper_second :
    (cmd first w : Text) (ts : List Text)
    → Spells cmd (first ∷ (w ∷ ts))
    → local_convert_to_upper w ≡ map toupper w
upper_second _ _ _ _ (next_word d a s _ h i c (next_word d' [] s' ts h' i' c' k)) = absurd i'
upper_second _ _ _ _ (next_word d a s _ h i c (next_word d' (x ∷ w) s' ts h' i' c' k)) =
    upper_plain (x ∷ w) i'

-- A command string that Java sends consists of words, with commas and blanks, one or more, between any
-- two of them and perhaps before the first and after the last. With two words or more, of which the
-- second, in upper case, is the beginning of the name in one row of the table of meanings and of the name
-- in no row before it, the string does what that row says, with the words after the second: the three
-- switches of Java and the latency switch are set by "true", "1", "on" and "yes" and cleared by "false",
-- "0", "off" and "no" in upper or lower case, the bit rate, the mode, the sample rate and the channels
-- are what their functions make of the next word, and a command that lacks its words is rejected. The
-- first word does not matter.
pub jni_rtsp_server_debug-Spells :
    (F : Floating) (cmd first w name : Text) (ts : List Text) (does : Meaning)
    (before after : List (Text × Meaning))
    → Spells cmd (first ∷ (w ∷ ts))
    → meanings F ≡ before ++ ((name, does) ∷ after)
    → has_prefix name (map toupper w) ≡ true
    → All (λ r. has_prefix r.0 (map toupper w) ≡ false) before
    → jni_rtsp_server_debug F (some cmd) ≡ does ts
unfolding jni_rtsp_server_debug streamer_debug get_index
jni_rtsp_server_debug-Spells F cmd first w name ts does before after h split starts none_before =
    ap (run_tokens F) (tokens-Spells cmd (first ∷ (w ∷ ts)) h)
    ∙ ap (λ u. reply_to F (index_in command_names u) ts) (upper_second cmd first w ts h)
    ∙ reply_to-Agree F command_names (map toupper w) name does before after ts
        (subst (λ ms. Agree F command_names ms) split (command_names-Agree F)) starts none_before
