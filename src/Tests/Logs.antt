-- ===== src/Tests/Logs.antt =====
-- The system logs page on a few entries and events.
use networkat_cloud_web_app.Prelude.{
  ℕ, ◌≡◌, ◌≤◌, refl, ◌||◌, true, false, none, some, List, [], ◌∷◌,
}
use networkat_cloud_web_app.Prelude.Text.{codes, text_eq}
use networkat_cloud_web_app.SystemLogs.Entries.{
  Entry, Logs, Answer, has_id, insert_sorted, add_entry, add_entries, enforce_gating, mask_from,
  mask, on_live_entry, count_up, older_answered, reload_started, reload_answered, caught_up,
}
use networkat_cloud_web_app.SystemLogs.Entries.Sorted.{ids_of, IsOrdered}
use networkat_cloud_web_app.SystemLogs.Entries.Events.{
  Event, live, reload_start, reload_answer, older_answer, catch_up_answer, handle_all,
  handle_all-IsOrdered,
}
use networkat_cloud_web_app.SystemLogs.Entries.Races.{
  add_entries-ids, add_entries_comm, reload_answered_comm,
}
use networkat_cloud_web_app.SystemLogs.Entries.Gating.{readable, on_live_entry-readable}
use networkat_cloud_web_app.SystemLogs.Stream.{Stream, off_shown, start_stream, on_open, on_error}
use networkat_cloud_web_app.SystemLogs.Stream.States.{
  StreamSteps, started, opened, failed, here, next, IsConsistent, StreamSteps-IsConsistent,
}

abbrev entry : ℕ → Entry
entry k = record {
  id = k;
  category = codes "vpn";
  code = codes "up";
  message = [];
  data_shown = none;
}

abbrev empty : Logs
empty = record {
  rows = [];
  ids = [];
  top_id = 0;
  counts = (codes "vpn", 0) ∷ [];
  is_gated = true;
  trial_limit = 2;
  pending_new = 0;
  has_more = false;
  next_before_id = none;
  reload_seq = 0;
}

abbrev answer : Answer
answer = record {
  entries = entry 4 ∷ entry 7 ∷ [];
  last_id = 9;
  gated = true;
  trial_log_limit = 2;
  more = true;
  before_id = some 4;
}

empty-IsOrdered : IsOrdered empty
empty-IsOrdered = record { descends = tt; same_ids = λ k. refl; top = tt }

abbrev events : List Event
events =
    live false (entry 8)
    ∷ reload_start
    ∷ live false (entry 9)
    ∷ reload_answer 1 answer
    ∷ older_answer answer
    ∷ catch_up_answer true (entry 9 ∷ entry 10 ∷ [])
    ∷ []

events_ids : ids_of (handle_all events empty).rows ≡ 10 ∷ 9 ∷ 7 ∷ 4 ∷ []
unfolding on_live_entry add_entry insert_sorted enforce_gating mask_from mask count_up
    reload_started reload_answered add_entries older_answered caught_up text_eq
events_ids = refl

handle_all-IsOrdered_example : IsOrdered (handle_all events empty)
handle_all-IsOrdered_example = handle_all-IsOrdered events empty empty-IsOrdered

add_entries-ids_example :
    has_id 7 (ids_of (add_entries answer.entries empty).rows)
    ≡ (has_id 7 (ids_of answer.entries) || has_id 7 (ids_of empty.rows))
add_entries-ids_example = add_entries-ids 7 answer.entries empty empty-IsOrdered

add_entries_comm_example :
    ids_of (add_entries answer.entries (add_entries (entry 5 ∷ []) empty)).rows
    ≡ ids_of (add_entries (entry 5 ∷ []) (add_entries answer.entries empty)).rows
add_entries_comm_example = add_entries_comm answer.entries (entry 5 ∷ []) empty empty-IsOrdered

reload_answered_comm_example :
    reload_answered 2 answer
      (reload_answered 1 (record answer { entries = [] }) (reload_started (reload_started empty)))
    ≡ reload_answered 1
        (record answer { entries = [] })
        (reload_answered 2 answer (reload_started (reload_started empty)))
reload_answered_comm_example = reload_answered_comm (record answer { entries = [] }) answer empty

on_live_entry-readable_example : readable (on_live_entry false (entry 8) empty).rows ≤ 2
on_live_entry-readable_example = on_live_entry-readable false (entry 8) empty refl refl

abbrev stream_off : Stream
stream_off = record { es = none; next_es = 0; fails = 0; shown = off_shown; retry = none }

stream_off-IsConsistent : IsConsistent stream_off
stream_off-IsConsistent = record { stream = refl; no_fails = tt; older = tt; delay = tt }

abbrev stream_broken : Stream
stream_broken = on_error true 0 (on_open 0 (start_stream false stream_off))

broken_steps : StreamSteps stream_off stream_broken
broken_steps =
    next
      (next (next (here stream_off) (started false stream_off))
        (opened 0 (start_stream false stream_off)))
      (failed true 0 (on_open 0 (start_stream false stream_off)))

StreamSteps-IsConsistent_example : IsConsistent stream_broken
StreamSteps-IsConsistent_example = StreamSteps-IsConsistent broken_steps stream_off-IsConsistent
