-- ===== src/SystemLogs/Entries.antt =====
-- client/static/js/system_logs.js: the list of log entries. `addEntries`, `enforceGating`,
-- `onLiveEntry`, and what `reload`, `loadOlder` and `catchUp` do with an answer.
pub mod Sorted
pub mod Events
pub mod Races
pub mod Gating
use networkat_cloud_web_app.Prelude.{
  ℕ, suc, ◌+◌, ◌≡◌, Bool, true, false, not, ◌&&◌, ◌||◌, Option, none, some, List, [], ◌∷◌, ltb,
  ◌==◌, if◌then◌else◌, any,
}
use networkat_cloud_web_app.Prelude.Text.{Text, codes, text_eq}

pub record Entry : Type 0 where
  pub id : ℕ
  pub category : Text
  pub code : Text
  pub message : Text
  pub data_shown : Option Text

-- The page's state `S`, as far as it is about entries. `counts` has the categories that are counted.
pub record Logs : Type 0 where
  pub rows : List Entry
  pub ids : List ℕ
  pub top_id : ℕ
  pub counts : List (Text × ℕ)
  pub is_gated : Bool
  pub trial_limit : ℕ
  pub pending_new : ℕ
  pub has_more : Bool
  pub next_before_id : Option ℕ
  pub reload_seq : ℕ

-- `S.ids.has(id)`
abbrev pub has_id : ℕ → List ℕ → Bool
has_id k = any (λ j. j == k)

-- `rows.push(e)` and `rows.sort((a, b) => b.id - a.id)`, which is stable: the new entry goes behind
-- those that are not below it.
unfoldable pub insert_sorted : Entry → List Entry → List Entry
insert_sorted e [] = e ∷ []
insert_sorted e (r ∷ rs) =
    let rest = insert_sorted e rs in if ltb r.id e.id then e ∷ r ∷ rs else r ∷ rest

-- One round of `addEntries`.
unfoldable pub add_entry : Entry → Logs → Logs
add_entry e s = if has_id e.id s.ids then s else record s {
  ids = e.id ∷ s.ids;
  rows = insert_sorted e s.rows;
  top_id = if ltb s.top_id e.id then e.id else s.top_id;
}

unfoldable pub add_entries : List Entry → Logs → Logs
add_entries [] s = s
add_entries (e ∷ es) s = add_entries es (add_entry e s)

abbrev pub is_masked : Entry → Bool
is_masked r = text_eq r.code (codes "paid_only") || text_eq r.code (codes "premium_only")

unfoldable pub mask : Entry → Entry
mask r = record r {
  code = codes "paid_only";
  message = codes "Available on paid plans";
  data_shown = none;
}

-- The loop of `enforceGating`; `count` is `unmaskedCount`.
unfoldable pub mask_from : ℕ → ℕ → List Entry → List Entry
mask_from limit count [] = []
mask_from limit count (r ∷ rs) =
    (if ltb count limit then r else mask r)
    ∷ mask_from limit (if ltb count limit && not (is_masked r) then count + 1 else count) rs

-- `S.trialLimit || 5`
abbrev pub limit_or_five : ℕ → ℕ
limit_or_five limit = if limit == 0 then 5 else limit

unfoldable pub enforce_gating : Logs → Logs
enforce_gating s =
    if not s.is_gated
    then s
    else record s { rows = mask_from (limit_or_five s.trial_limit) 0 s.rows }

unfoldable pub count_up : Text → List (Text × ℕ) → List (Text × ℕ)
count_up category [] = []
count_up category ((c, n) ∷ counts) =
    if text_eq c category then (c, n + 1) ∷ counts else (c, n) ∷ count_up category counts

-- `scrolled_away` is what `isScrolledAway` finds.
unfoldable pub on_live_entry : Bool → Entry → Logs → Logs
on_live_entry scrolled_away e s =
    if has_id e.id s.ids
    then s
    else (let added = record (add_entry e s) { counts = count_up e.category s.counts } in
        let gated = enforce_gating added in
        if scrolled_away then record gated { pending_new = gated.pending_new + 1 } else gated)

-- What the server answers to a list request; a missing page has no more.
pub record Answer : Type 0 where
  pub entries : List Entry
  pub last_id : ℕ
  pub gated : Bool
  pub trial_log_limit : ℕ
  pub more : Bool
  pub before_id : Option ℕ

-- `reload` up to its request: the number of the request is the new `reload_seq`.
unfoldable pub reload_started : Logs → Logs
reload_started s = record s { reload_seq = s.reload_seq + 1; rows = []; ids = []; pending_new = 0 }

-- The answer to the reload with the number `seq`; an answer to an older one is dropped.
unfoldable pub reload_answered : ℕ → Answer → Logs → Logs
reload_answered seq answer s =
    if not (seq == s.reload_seq)
    then s
    else (let gated = record s {
      is_gated = answer.gated;
      trial_limit = limit_or_five answer.trial_log_limit;
    } in
        let added = add_entries answer.entries gated in
        record added {
          top_id = if ltb added.top_id answer.last_id then answer.last_id else added.top_id;
          has_more = answer.more;
          next_before_id = answer.before_id;
        })

unfoldable pub older_answered : Answer → Logs → Logs
older_answered answer s = record (add_entries answer.entries s) {
  has_more = answer.more;
  next_before_id = answer.before_id;
}

-- `catchUp`, on an answer: the entries are taken as live ones.
unfoldable pub caught_up : Bool → List Entry → Logs → Logs
caught_up scrolled_away [] s = s
caught_up scrolled_away (e ∷ es) s = caught_up scrolled_away es (on_live_entry scrolled_away e s)
