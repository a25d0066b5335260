-- ===== src/Tests/Bus.antt =====
-- Messages on the bus of pipeline 9.
use my_stream_out_app.Base.{◌≡◌, none, some, List, [], ◌∷◌}
use my_stream_out_app.Base.Text.{codes}
use my_stream_out_app.Streamer.Bus.{
  error, Content, trouble, state_changed, Message, on_bus_messages,
}
use my_stream_out_app.Streamer.Bus.Messages.{
  errors_made, errors_freed, texts_made, texts_freed, transitions, troubles, own_transitions,
  severities, on_bus_messages-reports,
}

abbrev playing : Content
playing = state_changed (codes "PAUSED") (codes "PLAYING") (codes "VOID_PENDING")

abbrev posted : List Message
posted =
    record { src = some (22, codes "src"); content = playing }
    ∷ record { src = some (9, codes "pipeline"); content = playing }
    ∷ record { src = none; content = trouble error (some (codes "failed")) (some (codes "at 1")) }
    ∷ []

on_bus_messages-reports_example :
    let es = on_bus_messages 9 posted in
    (errors_made es ≡ errors_freed es)
    × (texts_made es ≡ texts_freed es)
    × (transitions es ≡ own_transitions 9 posted)
    × (troubles es ≡ severities posted)
on_bus_messages-reports_example = on_bus_messages-reports 9 posted
