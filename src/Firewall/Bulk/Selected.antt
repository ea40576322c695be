-- ===== src/Firewall/Bulk/Selected.antt =====
-- What is selected: the bar, the badge, the master checkbox and the bulk requests, next to the
-- boxes.
use networkat_cloud_web_app.Prelude.{
  ℕ, ◌≡◌, ◌≤◌, ◌↔◌, refl, sym, ◌∙◌, ap, Bool, true, false, not, ◌&&◌, ◌||◌, some, List, [], ◌∷◌,
  map, ltb, ◌==◌, length, is_nil, keep, all, any, arith, if◌then◌else◌, Bool-cases, inl, inr,
}
use networkat_cloud_web_app.Prelude.Text.{Text, codes, text_eq}
use networkat_cloud_web_app.Firewall.Bulk.{
  Box, check_all, Timer, show_timer, hide_timer, timer_run, set_box, Table, checked_boxes,
  on_rule_checkbox_change, toggle_select_all_rules, deselect_all_rules, row_clicked,
  apply_bulk_action,
}

-- The master checkbox is checked when there are rows and all are, the bar is there when some row is
-- checked, and the badge counts the checked rows; no timer is left.
pub record Agrees (t : Table) : Type 0 where
  pub master : t.master ≡ (not (is_nil t.boxes) && all (λ b. b.checked) t.boxes)
  pub bar : t.bar ≡ any (λ b. b.checked) t.boxes
  pub show : t.show ≡ t.bar
  pub badge : t.badge ≡ length (checked_boxes t.boxes)
  pub timers : t.timers ≡ []

length-keep {ℓ} : {A : Type ℓ} (p : A → Bool) (xs : List A) → length (keep p xs) ≤ length xs
length-keep p [] = omega arith
length-keep p (x ∷ xs) = ground (arith, length-keep p xs)

all-keep-length {ℓ} :
    {A : Type ℓ} (p : A → Bool) (xs : List A) → (length (keep p xs) == length xs) ≡ all p xs
all-keep-length p [] = refl
all-keep-length p (x ∷ xs) = ground (arith, all-keep-length p xs, length-keep p xs)

any-keep-length {ℓ} :
    {A : Type ℓ} (p : A → Bool) (xs : List A) → ltb 0 (length (keep p xs)) ≡ any p xs
any-keep-length p [] = refl
any-keep-length p (x ∷ xs) = ground (arith, any-keep-length p xs)

master_right :
    (bs : List Box)
    → (length (checked_boxes bs) == length bs && ltb 0 (length bs))
      ≡ (not (is_nil bs) && all (λ b. b.checked) bs)
master_right [] = refl
master_right (b ∷ bs) = ground (arith, all-keep-length (λ b. b.checked) (b ∷ bs))

-- Clicks on the table.
pub data Click : Type 0 where
  on_row : ℕ → Bool → Click
  on_master : Bool → Click
  on_deselect : Click

abbrev pub clicked : Click → Table → Table
clicked (on_row k state) t = row_clicked k state t
clicked (on_master state) t = toggle_select_all_rules state t
clicked on_deselect t = deselect_all_rules t

-- The timers that were started run, in the order in which they were started.
abbrev pub all_run : List Timer → Table → Table
all_run [] t = t
all_run (m ∷ ms) t = all_run ms (timer_run m t)

abbrev pub settled : Table → Table
settled t = all_run t.timers (record t { timers = [] })

-- Clicks one after another, each long enough after the one before that its timer has run.
abbrev pub clicked_all : List Click → Table → Table
clicked_all [] t = t
clicked_all (c ∷ cs) t = clicked_all cs (settled (clicked c t))

-- What a click makes of the checkbox of a row, and what the clicks make of it one after another.
abbrev pub said : Click → ℕ → Bool → Bool
said (on_row k state) rule_id before = if k == rule_id then state else before
said (on_master state) rule_id before = state
said on_deselect rule_id before = false

abbrev pub last_said : List Click → ℕ → Bool → Bool
last_said [] rule_id before = before
last_said (c ∷ cs) rule_id before = last_said cs rule_id (said c rule_id before)

-- The rows as the clicks leave them, one by one.
abbrev pub as_said : List Click → List Box → List Box
as_said cs = map (λ (b : Box). record b { checked = last_said cs b.rule_id b.checked })

-- A change of the rows while no timer is left, and then its timer.
change-Agrees : (t : Table) → t.timers ≡ [] → Agrees (settled (on_rule_checkbox_change t))
unfolding on_rule_checkbox_change timer_run
change-Agrees t quiet =
    let count = any-keep-length (λ b. b.checked) t.boxes in
    elim (Bool-cases (ltb 0 (length (checked_boxes t.boxes)))) [
      | inl selected ↦
          rw (on_rule_checkbox_change, selected, quiet)
            (record {
              master = master_right t.boxes;
              bar = sym selected ∙ count;
              show = refl;
              badge = refl;
              timers = refl;
            })
      | inr blank ↦
          rw (on_rule_checkbox_change, blank, quiet)
            (record {
              master = master_right t.boxes;
              bar = sym blank ∙ count;
              show = refl;
              badge = refl;
              timers = refl;
            })
    ]

clicked-Agrees : (c : Click) (t : Table) → t.timers ≡ [] → Agrees (settled (clicked c t))
unfolding row_clicked toggle_select_all_rules deselect_all_rules
clicked-Agrees (on_row k state) t quiet = change-Agrees _ quiet
clicked-Agrees (on_master state) t quiet = change-Agrees _ quiet
clicked-Agrees on_deselect t quiet = change-Agrees _ quiet

all_run-boxes : (ms : List Timer) (t : Table) → (all_run ms t).boxes ≡ t.boxes
unfolding timer_run
all_run-boxes [] t = refl
all_run-boxes (show_timer ∷ ms) t = all_run-boxes ms _
all_run-boxes (hide_timer ∷ ms) t = all_run-boxes ms _

change-boxes : (t : Table) → (on_rule_checkbox_change t).boxes ≡ t.boxes
unfolding on_rule_checkbox_change
change-boxes t = elim (Bool-cases (ltb 0 (length (checked_boxes t.boxes)))) [
  | inl selected ↦ rw (on_rule_checkbox_change, selected) refl
  | inr blank ↦ rw (on_rule_checkbox_change, blank) refl
]

settled-boxes : (t : Table) → (settled (on_rule_checkbox_change t)).boxes ≡ t.boxes
settled-boxes t =
    let u = on_rule_checkbox_change t in
    all_run-boxes u.timers (record u { timers = [] }) ∙ change-boxes t

set_box-said :
    (k : ℕ) (state : Bool) (bs : List Box) → set_box k state bs ≡ as_said (on_row k state ∷ []) bs
set_box-said k state [] = refl
set_box-said k state (b ∷ bs) = elim (Bool-cases (b.rule_id == k)) [
  | inl same ↦
      let is_k : (k == b.rule_id) ≡ true = ground (arith, same) in
      rw (same, is_k) (ap (◌∷◌ (record b { checked = state })) (set_box-said k state bs))
  | inr other ↦
      let not_k : (k == b.rule_id) ≡ false = ground (arith, other) in
      rw (other, not_k) (ap (◌∷◌ b) (set_box-said k state bs))
]

clicked-boxes : (c : Click) (t : Table) → (settled (clicked c t)).boxes ≡ as_said (c ∷ []) t.boxes
unfolding row_clicked toggle_select_all_rules deselect_all_rules
clicked-boxes (on_row k state) t =
    settled-boxes (record t { boxes = set_box k state t.boxes }) ∙ set_box-said k state t.boxes
clicked-boxes (on_master state) t =
    settled-boxes (record t { master = state; boxes = check_all state t.boxes })
clicked-boxes on_deselect t =
    settled-boxes (record t { master = false; boxes = check_all false t.boxes })

as_said-later :
    (c : Click) (cs : List Click) (bs : List Box)
    → as_said cs (as_said (c ∷ []) bs) ≡ as_said (c ∷ cs) bs
as_said-later c cs [] = refl
as_said-later c cs (b ∷ bs) =
    ap (◌∷◌ (record b { checked = last_said (c ∷ cs) b.rule_id b.checked })) (as_said-later c cs bs)

-- After any clicks, each after the timer of the one before, on a table that agrees with its rows: a
-- row is checked as the last click on it, on the master checkbox or on the button to deselect says,
-- and otherwise as before; and the table agrees with its rows again.
pub clicked_all-Agrees :
    (cs : List Click) (t : Table)
    → Agrees t
    → Agrees (clicked_all cs t) × ((clicked_all cs t).boxes ≡ as_said cs t.boxes)
clicked_all-Agrees [] t a = (a, same t.boxes)
  where
    same : (bs : List Box) → bs ≡ as_said [] bs
    same [] = refl
    same (b ∷ bs) = ap (◌∷◌ b) (same bs)
clicked_all-Agrees (c ∷ cs) t a =
    let (agrees, boxes) =
      clicked_all-Agrees cs (settled (clicked c t)) (clicked-Agrees c t a.timers) in
    (agrees, boxes ∙ ap (as_said cs) (clicked-boxes c t) ∙ as_said-later c cs t.boxes)

is_nil-checked :
    (bs : List Box)
    → is_nil (map (λ b. b.rule_id) (checked_boxes bs)) ≡ not (any (λ b. b.checked) bs)
is_nil-checked [] = refl
is_nil-checked (b ∷ bs) = elim (Bool-cases b.checked) [
  | inl e ↦ rw e refl
  | inr e ↦ rw e (is_nil-checked bs)
]

-- A bulk request is sent, by who may use the firewall and, for a deletion, has confirmed it, exactly
-- when the bar is there; it names the checked rules in the order of the table.
pub apply_bulk_action_iff :
    (feature admin confirmed : Bool) (action : Text) (t : Table) (body : Text × List ℕ)
    → Agrees t
    → (apply_bulk_action feature admin confirmed action t ≡ some body) ↔ (
        ((feature || admin) ≡ true)
        × (t.bar ≡ true)
        × ((not (text_eq action (codes "delete")) || confirmed) ≡ true)
        × (body ≡ (action, map (λ b. b.rule_id) (checked_boxes t.boxes))))
unfolding apply_bulk_action
apply_bulk_action_iff feature admin confirmed action t body a = (
  λ h. ground (arith, is_nil-checked t.boxes, a.bar),
  λ h. ground (arith, is_nil-checked t.boxes, a.bar),
)
