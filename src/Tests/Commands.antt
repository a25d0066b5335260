-- ===== src/Tests/Commands.antt =====
-- Debug commands.
use my_stream_out_app.Base.{
  ℕ, All, inl, inr, arith, take, drop, Bool, ◌+◌, ◌-◌, ◌*◌, ◌≡◌, refl, true, false, ◌&&◌, some, [],
  ◌∷◌, if◌then◌else◌,
}
use my_stream_out_app.Base.Int.{ℤ, pos, negsuc}
use my_stream_out_app.Base.Text.{Text, codes, strtol, has_prefix, str_eq, toupper}
use my_stream_out_app.Debug.{is_delimiter, dbg_call_bool_setter, parse_bool}
use my_stream_out_app.Debug.Jni.{
  Vm, detached, set_bool, config_summary, call_java, total, attaches, detaches, locals_made,
  locals_freed, chars_taken, chars_released, calls, is_reachable, call_java_balance,
}
use my_stream_out_app.Debug.Bitrate.{Floating}
use my_stream_out_app.Debug.Dispatch.{java, streamer_debug, jni_rtsp_server_debug}
use my_stream_out_app.Debug.Line.{on_first, switch, meanings, jni_rtsp_server_debug-Spells}
use my_stream_out_app.Debug.Tokens.{IsDelimiter, Spells, only_gap, next_word}

-- Whole numbers in the place of `double`.
abbrev below_zero : ℤ → Bool
below_zero (pos n) = false
below_zero (negsuc n) = true

abbrev multiple : ℤ → ℕ → ℤ
multiple (pos n) k = pos (n * k)
multiple (negsuc n) k = negsuc (n * k + (k - 1))

abbrev whole : Floating
unfolding strtol
whole = record {
  Double = ℤ;
  strtod = λ s. some (strtol s);
  times = multiple;
  is_negative = below_zero;
  to_long = λ z. z;
  of_nat = pos;
  times_exact = λ n k h. refl;
  is_negative_exact = λ n. refl;
  to_long_exact = λ n h. refl;
}

-- An abbreviated command, end to end.
streamer_debug_use_opus :
    streamer_debug whole (codes "CAM2, set_u  on") ≡ java (set_bool (codes "setUseOpus") true)
unfolding streamer_debug has_prefix dbg_call_bool_setter parse_bool str_eq
streamer_debug_use_opus = refl

-- A thread that is not attached, and everything found.
abbrev ready : Vm
ready = record {
  present = true;
  env = detached;
  attach_ok = true;
  class_found = true;
  method_found = true;
  summary_returned = true;
  summary_readable = true;
  exception_pending = false;
}

call_java_balance_example :
    let es = call_java ready config_summary in
    (total attaches es ≡ total detaches es)
    × (total locals_made es ≡ total locals_freed es)
    × (total chars_taken es ≡ total chars_released es)
    × (calls es ≡ (
        if ready.present && (is_reachable ready && (ready.class_found && ready.method_found))
        then config_summary ∷ []
        else []))
call_java_balance_example = call_java_balance ready config_summary

-- No delimiter follows the last word, and the command is cut short.
abbrev line : Text
line = codes "cam2, set_u yes"

plain : (w : Text) → All (λ x. (is_delimiter x) ≡ false) w → All (λ x. ¬ IsDelimiter x) w
plain [] h = tt
plain (c ∷ w) (e, h) = ((λ d. ground arith), plain w h)

line-Spells : Spells line (codes "cam2" ∷ (codes "set_u" ∷ (codes "yes" ∷ [])))
line-Spells =
    next_word [] (codes "cam2") (codes ", set_u yes") (codes "set_u" ∷ (codes "yes" ∷ [])) tt
      (plain (codes "cam2") (refl, (refl, (refl, (refl, tt))))) (inl refl)
      (next_word (codes ", ") (codes "set_u") (codes " yes") (codes "yes" ∷ [])
        (inl refl, (inr refl, tt))
        (plain (codes "set_u") (refl, (refl, (refl, (refl, (refl, tt)))))) (inr refl)
        (next_word (codes " ") (codes "yes") [] [] (inr refl, tt)
          (plain (codes "yes") (refl, (refl, (refl, tt)))) tt (only_gap [] tt)))

jni_rtsp_server_debug-Spells_example :
    jni_rtsp_server_debug whole (some line)
    ≡ on_first (switch (codes "setUseOpus")) (codes "yes" ∷ [])
unfolding has_prefix toupper
jni_rtsp_server_debug-Spells_example =
    jni_rtsp_server_debug-Spells whole line (codes "cam2") (codes "set_u") (codes "SET_USE_OPUS")
      (codes "yes" ∷ []) (on_first (switch (codes "setUseOpus"))) (take 9 (meanings whole))
      (drop 10 (meanings whole)) line-Spells refl refl
      (refl, (refl, (refl, (refl, (refl, (refl, (refl, (refl, (refl, tt)))))))))
