-- ===== src/SystemLogs/Entries/Events.antt =====
-- The list of entries over any sequence of live entries, reloads and answers.
use networkat_cloud_web_app.Prelude.{
  ℕ, ◌+◌, ◌≡◌, refl, sym, Bool, true, false, not, List, [], ◌∷◌, ltb, ◌==◌, if◌then◌else◌, arith,
}
use networkat_cloud_web_app.SystemLogs.Entries.{
  Entry, Logs, has_id, add_entry, add_entries, count_up, limit_or_five, enforce_gating,
  on_live_entry, Answer, reload_started, reload_answered, older_answered, caught_up,
}
use networkat_cloud_web_app.SystemLogs.Entries.Sorted.{
  ids_of, IsOrdered, All-at_most, add_entry-IsOrdered, add_entries-IsOrdered,
  enforce_gating-IsOrdered,
}

-- Only the rows, the ids and the highest id matter.
IsOrdered-of_same :
    (s t : Logs) → s.rows ≡ t.rows → s.ids ≡ t.ids → s.top_id ≡ t.top_id → IsOrdered s → IsOrdered t
IsOrdered-of_same s t rows ids top o = record {
  descends = rw (sym rows) o.descends;
  same_ids = λ k. rw (sym rows, sym ids) (o.same_ids k);
  top = rw (sym rows, sym top) o.top;
}

on_live_entry-IsOrdered :
    (away : Bool) (e : Entry) (s : Logs) → IsOrdered s → IsOrdered (on_live_entry away e s)
unfolding on_live_entry
on_live_entry-IsOrdered away e s o = go (has_id e.id s.ids) away
  where
    added : Logs
    added = record (add_entry e s) { counts = count_up e.category s.counts }

    gated : IsOrdered (enforce_gating added)
    gated =
        enforce_gating-IsOrdered added
          (IsOrdered-of_same (add_entry e s) added refl refl refl (add_entry-IsOrdered e s o))

    go :
        (seen away : Bool)
        → IsOrdered (
            if seen
            then s
            else (if away
                then record (enforce_gating added) {
                  pending_new = (enforce_gating added).pending_new + 1;
                }
                else enforce_gating added))
    go true away = o
    go false true = IsOrdered-of_same (enforce_gating added) _ refl refl refl gated
    go false false = gated

caught_up-IsOrdered :
    (away : Bool) (es : List Entry) (s : Logs) → IsOrdered s → IsOrdered (caught_up away es s)
unfolding caught_up
caught_up-IsOrdered away [] s o = o
caught_up-IsOrdered away (e ∷ es) s o =
    caught_up-IsOrdered away es (on_live_entry away e s) (on_live_entry-IsOrdered away e s o)

pub reload_answered-IsOrdered :
    (seq : ℕ) (answer : Answer) (s : Logs) → IsOrdered s → IsOrdered (reload_answered seq answer s)
unfolding reload_answered
reload_answered-IsOrdered seq answer s o = go (seq == s.reload_seq)
  where
    gated : Logs
    gated = record s { is_gated = answer.gated; trial_limit = limit_or_five answer.trial_log_limit }

    added : Logs
    added = add_entries answer.entries gated

    ordered : IsOrdered added
    ordered =
        add_entries-IsOrdered answer.entries gated (IsOrdered-of_same s gated refl refl refl o)

    go :
        (current : Bool)
        → IsOrdered (
            if not current then s else record added {
              top_id = if ltb added.top_id answer.last_id then answer.last_id else added.top_id;
              has_more = answer.more;
              next_before_id = answer.before_id;
            })
    go false = o
    go true = record {
      descends = ordered.descends;
      same_ids = ordered.same_ids;
      top = All-at_most added.top_id _ (ids_of added.rows) (ground arith) ordered.top;
    }

-- What can happen to the list: a live entry, a reload that starts, an answer to a reload or to a
-- request for older entries, and an answer to a catch-up. Answers come at any time.
pub data Event : Type 0 where
  live : Bool → Entry → Event
  reload_start : Event
  reload_answer : ℕ → Answer → Event
  older_answer : Answer → Event
  catch_up_answer : Bool → List Entry → Event

abbrev pub handle : Event → Logs → Logs
handle (live away e) s = on_live_entry away e s
handle reload_start s = reload_started s
handle (reload_answer seq answer) s = reload_answered seq answer s
handle (older_answer answer) s = older_answered answer s
handle (catch_up_answer away es) s = caught_up away es s

abbrev pub handle_all : List Event → Logs → Logs
handle_all [] s = s
handle_all (v ∷ vs) s = handle_all vs (handle v s)

handle-IsOrdered : (v : Event) (s : Logs) → IsOrdered s → IsOrdered (handle v s)
unfolding reload_started older_answered
handle-IsOrdered (live away e) s o = on_live_entry-IsOrdered away e s o
handle-IsOrdered reload_start s o = record { descends = tt; same_ids = λ k. refl; top = tt }
handle-IsOrdered (reload_answer seq answer) s o = reload_answered-IsOrdered seq answer s o
handle-IsOrdered (older_answer answer) s o =
    IsOrdered-of_same (add_entries answer.entries s) _ refl refl refl
      (add_entries-IsOrdered answer.entries s o)
handle-IsOrdered (catch_up_answer away es) s o = caught_up-IsOrdered away es s o

-- Whatever sequence of live entries, reloads and answers follows, the rows stay newest first with
-- every id once, the set of ids is that of the rows, and no row is above the highest id that a
-- catch-up asks from, if this held before.
pub handle_all-IsOrdered : (vs : List Event) (s : Logs) → IsOrdered s → IsOrdered (handle_all vs s)
handle_all-IsOrdered [] s o = o
handle_all-IsOrdered (v ∷ vs) s o = handle_all-IsOrdered vs (handle v s) (handle-IsOrdered v s o)
