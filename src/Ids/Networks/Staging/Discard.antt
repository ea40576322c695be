-- ===== src/Ids/Networks/Staging/Discard.antt =====
-- The rows that were fetched, under any staged changes.
use networkat_cloud_web_app.Prelude.{
  ℕ, zero, suc, subst, ◌≡◌, ◌↔◌, ◌⊎◌, refl, sym, ◌∙◌, ap, ap₂, Bool, false, Option, none, some,
  List, [], ◌∷◌, ◌++◌, map, All, All-append, arith, ok, Bool-cases, Option-cases, inl, inr,
}
use networkat_cloud_web_app.Prelude.Text.{Text}
use networkat_cloud_web_app.Firewall.Order.Laws.{some-injective}
use networkat_cloud_web_app.Ids.Networks.Fields.{Parsed}
use networkat_cloud_web_app.Ids.Networks.Staging.{
  Item, same_key, Pending, unchanged, added, edited, removed, Staged, is_added, is_pending, kept,
  item_before, set_item, at_row, dup_of, without_row, edited_item, row_at, do_edit, delete_row,
  undo_row, revert_row, new_items, made_of, as_added, do_add, discard, pending_items,
}

-- What is known of a row: only a row that was changed has an item from before, of another key.
abbrev pub IsChanged : Staged → Type 0
IsChanged s = (o : Item) × (s.orig ≡ some o) × (same_key s.item o ≡ false)

abbrev pub IsSound : Staged → Pending → Type 0
IsSound s unchanged = s.orig ≡ none
IsSound s added = s.orig ≡ none
IsSound s edited = IsChanged s
IsSound s removed = (s.orig ≡ none) ⊎ IsChanged s

abbrev pub Sound : Staged → Type 0
Sound s = IsSound s s.p

-- The rows are sound, and giving the changes up gives the fetched items back, in their order.
abbrev pub Tracks : List Item → List Staged → Type 0
Tracks saved rows = All Sound rows × (discard rows ≡ map kept saved)

discard-append : (xs ys : List Staged) → discard (xs ++ ys) ≡ discard xs ++ discard ys
unfolding discard
discard-append [] ys = refl
discard-append (x ∷ xs) ys = elim (Bool-cases (is_added x.p)) [
  | inl new ↦ rw new (discard-append xs ys)
  | inr old ↦ rw old (ap (◌∷◌ (kept (item_before x))) (discard-append xs ys))
]

-- One row after another: what a button makes of a row is as good as the row.
Keeps : Staged → List Staged → Type 0
Keeps s ss = All Sound ss × (discard ss ≡ discard (s ∷ []))

at_row-Tracks :
    (i : ℕ) (f : Staged → List Staged) (rows : List Staged)
    → ((s : Staged) → row_at i rows ≡ some s → Sound s → Keeps s (f s))
    → All Sound rows
    → All Sound (at_row i f rows) × (discard (at_row i f rows) ≡ discard rows)
unfolding Keeps
at_row-Tracks i f [] step h = (tt, refl)
at_row-Tracks zero f (s ∷ ss) step (h, hs) =
    let (sound, same) = step s refl h in
    (
      All-append Sound (f s) ss sound hs,
      discard-append (f s) ss ∙ ap (λ u. u ++ discard ss) same ∙ sym (discard-append (s ∷ []) ss),
    )
at_row-Tracks (suc i) f (s ∷ ss) step (h, hs) =
    let (sound, same) = at_row-Tracks i f ss step hs in
    (
      (h, sound),
      discard-append (s ∷ []) (at_row i f ss)
          ∙ ap (λ u. discard (s ∷ []) ++ u) same
          ∙ sym (discard-append (s ∷ []) ss),
    )

discard-kept : (o : Item) → discard (kept o ∷ []) ≡ kept o ∷ []
unfolding discard
discard-kept o = refl

set_item-Keeps : (nu : Item) (s : Staged) → Keeps s (set_item nu s ∷ [])
unfolding Keeps set_item discard
set_item-Keeps nu s = elim (Bool-cases (is_added s.p)) [
  | inl new ↦ rw new ((refl, tt), refl)
  | inr old ↦ elim (Bool-cases (same_key nu (item_before s))) [
    | inl back ↦ rw (old, back) ((refl, tt), refl)
    | inr other ↦ rw (old, other) (((item_before s, refl, other), tt), refl)
  ]
]

Sound-removed : (s : Staged) → is_added s.p ≡ false → Sound s → IsSound s removed
Sound-removed s old h = go s.p old h
  where
    go : (p : Pending) → is_added p ≡ false → IsSound s p → IsSound s removed
    go unchanged old h = inl h
    go added old h = cc
    go edited old h = inr h
    go removed old h = h

delete_row-Keeps : (s : Staged) → Sound s → Keeps s (delete_row s)
unfolding Keeps delete_row discard
delete_row-Keeps s h = elim (Bool-cases (is_added s.p)) [
  | inl new ↦ rw new (tt, refl)
  | inr old ↦ rw old ((Sound-removed s old h, tt), refl)
]

abbrev row_of : Item → Option Item → Pending → Staged
row_of item orig p = record { item = item; p = p; orig = orig }

undo_removed :
    (item : Item) (orig : Option Item)
    → Sound (row_of item orig removed)
    → Keeps (row_of item orig removed) (undo_row (row_of item orig removed))
unfolding Keeps undo_row discard
undo_removed item none h = ((refl, tt), refl)
undo_removed item (some o) (inl none_there) = absurd cc
undo_removed item (some o) (inr changed) = ((changed, tt), refl)

undo_row-Keeps : (s : Staged) → s.p ≡ removed → Sound s → Keeps s (undo_row s)
undo_row-Keeps s gone h =
    let is_s : row_of s.item s.orig removed ≡ s = ap (row_of s.item s.orig) (sym gone) in
    subst (λ t. Sound t → Keeps t (undo_row t)) is_s (undo_removed s.item s.orig) h

revert_row-Keeps : (s : Staged) → s.p ≡ edited → Keeps s (revert_row s)
unfolding Keeps revert_row discard
revert_row-Keeps s there = rw there ((refl, tt), refl)

All-as_added : (ms : List Item) → All Sound (map as_added ms)
All-as_added [] = tt
All-as_added (m ∷ ms) = (refl, All-as_added ms)

discard-as_added : (ms : List Item) → discard (map as_added ms) ≡ []
unfolding discard
discard-as_added [] = refl
discard-as_added (m ∷ ms) = discard-as_added ms

add-Tracks :
    (saved ms : List Item) (rows : List Staged)
    → Tracks saved rows
    → Tracks saved (map as_added ms ++ rows)
add-Tracks saved ms rows (sound, same) = (
  All-append Sound (map as_added ms) rows (All-as_added ms) sound,
  discard-append (map as_added ms) rows ∙ ap (λ u. u ++ discard rows) (discard-as_added ms) ∙ same,
)

row_Tracks :
    (saved : List Item) (i : ℕ) (f : Staged → List Staged) (rows : List Staged)
    → ((s : Staged) → row_at i rows ≡ some s → Sound s → Keeps s (f s))
    → Tracks saved rows
    → Tracks saved (at_row i f rows)
row_Tracks saved i f rows step (sound, same) =
    let (sound', same') = at_row-Tracks i f rows step sound in (sound', same' ∙ same)

-- The rows as they were fetched, and what the window does to them. A row has the button "Keep it"
-- when it is removed, and the button "Undo the change" when it is edited.
pub data Reached (servers : Bool) (limit : ℕ) (saved : List Item) : List Staged → Type 0 where
  fetched : Reached servers limit saved (map kept saved)
  adding :
      {rows after : List Staged} (type : Text) (r : Parsed)
      → do_add servers limit type r rows ≡ ok after
      → Reached servers limit saved rows
      → Reached servers limit saved after
  editing :
      {rows after : List Staged} (i : ℕ) (type : Text) (r : Parsed)
      → do_edit servers i type r rows ≡ some after
      → Reached servers limit saved rows
      → Reached servers limit saved after
  deleting :
      {rows : List Staged} (i : ℕ)
      → Reached servers limit saved rows
      → Reached servers limit saved (at_row i delete_row rows)
  keeping :
      {rows : List Staged} (i : ℕ) (s : Staged)
      → row_at i rows ≡ some s
      → s.p ≡ removed
      → Reached servers limit saved rows
      → Reached servers limit saved (at_row i undo_row rows)
  reverting :
      {rows : List Staged} (i : ℕ) (s : Staged)
      → row_at i rows ≡ some s
      → s.p ≡ edited
      → Reached servers limit saved rows
      → Reached servers limit saved (at_row i revert_row rows)

fetched-Tracks : (saved : List Item) → Tracks saved (map kept saved)
unfolding discard
fetched-Tracks [] = (tt, refl)
fetched-Tracks (o ∷ saved) =
    let (sound, same) = fetched-Tracks saved in ((refl, sound), ap (◌∷◌ (kept o)) same)

do_add-rows :
    (servers : Bool) (limit : ℕ) (type : Text) (r : Parsed) (rows after : List Staged)
    → do_add servers limit type r rows ≡ ok after
    → map as_added (made_of rows [] (new_items servers type r)) ++ rows ≡ after
unfolding do_add
do_add-rows servers limit type r rows after h = ground (arith, h)

do_edit-rows :
    (servers : Bool) (i : ℕ) (type : Text) (r : Parsed) (rows after : List Staged)
    → do_edit servers i type r rows ≡ some after
    → (nu : Item) × (at_row i (λ s. set_item nu s ∷ []) rows ≡ after)
unfolding do_edit
do_edit-rows servers i type r rows after h = elim (Option-cases (row_at i rows)) [
  | inl no_row ↦ let never = rw (do_edit, no_row) at h in absurd cc
  | inr (old, there) ↦
      let nu = edited_item servers type r old.item in
      elim (Bool-cases (dup_of nu (without_row i rows))) [
        | inl dup ↦ let never = rw (do_edit, there, dup) at h in absurd cc
        | inr new ↦ (nu, some-injective (rw (do_edit, there, new) at h))
      ]
]

module _ (servers : Bool) (limit : ℕ) (saved : List Item) where
  Reached-Tracks : {rows : List Staged} → Reached servers limit saved rows → Tracks saved rows
  Reached-Tracks fetched = fetched-Tracks saved
  Reached-Tracks (adding {rows} {after} type r e h) =
      subst (Tracks saved) (do_add-rows servers limit type r rows after e)
        (add-Tracks saved (made_of rows [] (new_items servers type r)) rows (Reached-Tracks h))
  Reached-Tracks (editing {rows} {after} i type r e h) =
      let (nu, is_after) = do_edit-rows servers i type r rows after e in
      subst (Tracks saved) is_after (
        row_Tracks saved i (λ s. set_item nu s ∷ []) rows (λ s _ _. set_item-Keeps nu s)
          (Reached-Tracks h))
  Reached-Tracks (deleting {rows} i h) =
      row_Tracks saved i delete_row rows (λ s _ sound. delete_row-Keeps s sound) (Reached-Tracks h)
  Reached-Tracks (keeping {rows} i s there gone h) =
      row_Tracks saved i undo_row rows
        (λ t e sound.
          undo_row-Keeps t (ap (λ x. x.p) (some-injective (sym e ∙ there)) ∙ gone) sound)
        (Reached-Tracks h)
  Reached-Tracks (reverting {rows} i s there changed h) =
      row_Tracks saved i revert_row rows
        (λ t e sound. revert_row-Keeps t (ap (λ x. x.p) (some-injective (sym e ∙ there)) ∙ changed))
        (Reached-Tracks h)

quiet_row : (s : Staged) → Sound s → is_pending s.p ≡ false → kept (item_before s) ≡ s
quiet_row s h quiet =
    let is_s : row_of s.item none unchanged ≡ s = go s.p h quiet in
    ap (λ t. kept (item_before t)) (sym is_s) ∙ is_s
  where
    go :
        (p : Pending)
        → IsSound s p
        → is_pending p ≡ false
        → row_of s.item none unchanged ≡ row_of s.item s.orig p
    go unchanged h quiet = ap (λ o. row_of s.item o unchanged) (sym h)
    go added h quiet = cc
    go edited h quiet = cc
    go removed h quiet = cc

quiet_rows : (rows : List Staged) → All Sound rows → pending_items rows ≡ [] → discard rows ≡ rows
unfolding discard pending_items
quiet_rows [] h quiet = refl
quiet_rows (s ∷ rows) (h, hs) quiet = elim (Bool-cases (is_pending s.p)) [
  | inl pending ↦ let never = rw (pending_items, pending) at quiet in absurd cc
  | inr none_here ↦
      let rest = quiet_rows rows hs (rw (pending_items, none_here) at quiet) in
      let old : is_added s.p ≡ false = not_added s.p none_here in
      rw old (ap₂ ◌∷◌ (quiet_row s h none_here) rest)
]
  where
    not_added : (p : Pending) → is_pending p ≡ false → is_added p ≡ false
    not_added unchanged e = refl
    not_added added e = cc
    not_added edited e = refl
    not_added removed e = refl

pending_items-kept : (saved : List Item) → pending_items (map kept saved) ≡ []
unfolding pending_items
pending_items-kept [] = refl
pending_items-kept (o ∷ saved) = pending_items-kept saved

-- Whatever rows are added, edited, removed, kept after all and changed back, giving the changes up
-- leaves the items that were fetched, in their order, with nothing staged; and nothing is staged
-- exactly when the rows are those.
pub Reached-saved :
    (servers : Bool) (limit : ℕ) (saved : List Item) (rows : List Staged)
    → Reached servers limit saved rows
    → (discard rows ≡ map kept saved) × ((pending_items rows ≡ []) ↔ (rows ≡ map kept saved))
Reached-saved servers limit saved rows h =
    let (sound, same) = Reached-Tracks servers limit saved h in
    (
      same,
      (
        λ quiet. sym (quiet_rows rows sound quiet) ∙ same,
        λ e. ap pending_items e ∙ pending_items-kept saved,
      ),
    )
