-- ===== src/Firewall/Order/Steps.antt =====
-- The page as the user edits the order, one move after another, from a list that was fetched.
use mathlib.Core.List.{Perm}
use mathlib.Core.List.Perm
use networkat_cloud_web_app.Prelude.{
  ℕ, false, true, ◌+◌, ◌≡◌, refl, sym, ◌∙◌, ap, Bool, true, some, List, [], ◌∷◌, map, arith, length,
  Bool-cases, inl, inr, ◌↔◌, not, ◌||◌, ◌≢◌,
}
use networkat_cloud_web_app.Prelude.Text.{Text, text_eq}
use networkat_cloud_web_app.Prelude.Text.Laws.{text_eq_iff}
use networkat_cloud_web_app.Firewall.Order.Lists.{remove_at, insert_at}
use networkat_cloud_web_app.Firewall.Order.Laws.{remove_at-perm, insert_at-perm}
use networkat_cloud_web_app.Firewall.Order.Numbers.{
  counted, ids, kept, renumber_from-kept, order_string_iff,
}
use networkat_cloud_web_app.Firewall.Order.Drag.{distinct, distinct_perm, rules_of_rows-perm}
use networkat_cloud_web_app.Firewall.Order.Moves.{
  Relocates, move_rule_up-Relocates, move_rule_down-Relocates, change_rule_order_directly-Relocates,
}
use networkat_cloud_web_app.Firewall.Order.{
  Rule, Page, order_string, renumber_from, check_order_changes, with_rules, move_rule_up,
  move_rule_down, change_rule_order_directly, rules_of_rows, handle_drag_end, reorder_items,
  rules_fetched, reorder_answered, submit_reorder,
}

-- One edit; a drag leaves the rows that there are.
pub data Edits : Page → Page → Type 0 where
  moved_up : (k : ℕ) (p : Page) → Edits p (move_rule_up k p)
  moved_down : (k : ℕ) (p q : Page) → move_rule_down k p ≡ some q → Edits p q
  renumbered : (k : ℕ) (v : Text) (p : Page) → Edits p (change_rule_order_directly k v p)
  dragged : (rows : List ℕ) (p : Page) → Perm rows (ids p.rules) → Edits p (handle_drag_end rows p)

pub data Edited : Page → Page → Type 0 where
  untouched : (p : Page) → Edited p p
  then : {p q r : Page} → Edited p q → Edits q r → Edited p r

-- What holds of a page whose list came from `fetched`: the same rules in some order, and a banner
-- that tells whether it is the fetched order.
abbrev pub Tracks : List Rule → Page → Type 0
Tracks fetched p =
    Perm (map kept p.rules) (map kept fetched)
    × (p.initial_order ≡ order_string fetched)
    × ((p.banner ≡ true) ↔ (ids p.rules ≢ ids fetched))

pub relocate-perm : (p q : Page) → Relocates p q → Perm (map kept q.rules) (map kept p.rules)
unfolding with_rules check_order_changes
relocate-perm p q (inl same) = rw same (Perm.refl (map kept p.rules))
relocate-perm p q (inr (i, a, j, here, e)) = rw e (
    rw (renumber_from-kept 0 (insert_at (remove_at p.rules i) j a)) (
      Perm.trans (Perm.map kept (insert_at-perm (remove_at p.rules i) j a))
        (Perm.map kept (remove_at-perm p.rules i a here))))

-- The banner is right after each check, whatever it was before.
banner_right :
    (fetched : List Rule) (p : Page)
    → p.initial_order ≡ order_string fetched
    → ((check_order_changes p).banner ≡ true) ↔ (ids p.rules ≢ ids fetched)
unfolding check_order_changes
banner_right fetched p h = (hides, shows)
  where
    hides : not (text_eq (order_string p.rules) p.initial_order) ≡ true → ids p.rules ≢ ids fetched
    hides shown same =
        let e : order_string p.rules ≡ p.initial_order =
          (order_string_iff p.rules fetched).1 same ∙ sym h in
        ground (arith, (text_eq_iff (order_string p.rules) p.initial_order).1 e)

    shows : ids p.rules ≢ ids fetched → not (text_eq (order_string p.rules) p.initial_order) ≡ true
    shows other = elim (Bool-cases (text_eq (order_string p.rules) p.initial_order)) [
      | inl e ↦ absurd (
          other (
            (order_string_iff p.rules fetched).0
              ((text_eq_iff (order_string p.rules) p.initial_order).0 e ∙ h)))
      | inr e ↦ rw e refl
    ]

relocate-Tracks :
    (fetched : List Rule) (p q : Page) → Relocates p q → Tracks fetched p → Tracks fetched q
unfolding with_rules check_order_changes
relocate-Tracks fetched p q (inl same) t = rw same t
relocate-Tracks fetched p q (inr (i, a, j, here, e)) (same, first, banner) =
    let moved : List Rule = renumber_from 0 (insert_at (remove_at p.rules i) j a) in
    let perm = relocate-perm p q (inr (i, a, j, here, e)) in
    (
      Perm.trans perm same,
      rw e first,
      rw e (banner_right fetched (record p { rules = moved }) first),
    )

ids-kept : (rs : List Rule) → map (λ (k : ℕ × Bool × Text). k.0) (map kept rs) ≡ ids rs
ids-kept [] = refl
ids-kept (r ∷ rs) = ap (λ l. r.id ∷ l) (ids-kept rs)

pub ids-perm : (rs ss : List Rule) → Perm (map kept rs) (map kept ss) → Perm (ids rs) (ids ss)
ids-perm rs ss p =
    rw (sym (ids-kept rs), sym (ids-kept ss)) (Perm.map (λ (k : ℕ × Bool × Text). k.0) p)

edit-Tracks :
    (fetched : List Rule) {p q : Page}
    → distinct (ids fetched) ≡ true
    → Edits p q
    → Tracks fetched p
    → Tracks fetched q
unfolding handle_drag_end check_order_changes
edit-Tracks fetched h (Edits.moved_up k p) t =
    relocate-Tracks fetched p _ (move_rule_up-Relocates k p) t
edit-Tracks fetched h (Edits.moved_down k p q e) t =
    relocate-Tracks fetched p q (move_rule_down-Relocates k p q e) t
edit-Tracks fetched h (Edits.renumbered k v p) t =
    relocate-Tracks fetched p _ (change_rule_order_directly-Relocates k v p) t
edit-Tracks fetched h (Edits.dragged rows p rows_of_page) (same, first, banner) =
    let distinct_now = distinct_perm (ids-perm p.rules fetched same) ∙ h in
    (
      Perm.trans (rules_of_rows-perm p.rules 0 rows distinct_now rows_of_page) same,
      first,
      banner_right fetched (record p { rules = rules_of_rows p.rules 0 rows }) first,
    )

-- Whatever edits are made to a page that tracks a fetched list without repeated numbers, it holds
-- the fetched rules, each once and with its switch and body unchanged, and shows the banner exactly
-- when their order is not the fetched one.
pub Edited-Tracks :
    (fetched : List Rule) {p q : Page}
    → distinct (ids fetched) ≡ true
    → Edited p q
    → Tracks fetched p
    → Tracks fetched q
Edited-Tracks fetched h (Edited.untouched p) t = t
Edited-Tracks fetched h (Edited.then es e) t =
    edit-Tracks fetched h e (Edited-Tracks fetched h es t)

items_split :
    (i : ℕ) (rs : List Rule)
    → (map (λ (t : ℕ × ℕ). t.0) (reorder_items i rs) ≡ ids rs)
      × (map (λ (t : ℕ × ℕ). t.1) (reorder_items i rs) ≡ counted i (length rs))
unfolding reorder_items
items_split i [] = (refl, refl)
items_split i (r ∷ rs) =
    let (numbers, orders) = items_split (i + 1) rs in
    (ap (λ l. r.id ∷ l) numbers, ap (λ l. (i + 1) ∷ l) orders)

-- After any edits of a fetched list without repeated numbers, a page that is online and may use the
-- firewall sends each fetched rule once, in the order shown, with the orders 1, 2, 3, ...
pub submit_reorder-Edited :
    (fetched : List Rule) (feature admin : Bool) {p q : Page}
    → distinct (ids fetched) ≡ true
    → Tracks fetched p
    → Edited p q
    → q.online ≡ true
    → (feature || admin) ≡ true
    → (items : List (ℕ × ℕ)) × (submit_reorder feature admin q ≡ some items)
      × (map (λ (t : ℕ × ℕ). t.0) items ≡ ids q.rules)
      × Perm (ids q.rules) (ids fetched)
      × (map (λ (t : ℕ × ℕ). t.1) items ≡ counted 0 (length q.rules))
unfolding submit_reorder
submit_reorder-Edited fetched feature admin {q = q} h t es online allowed =
    let (numbers, orders) = items_split 0 q.rules in
    let (same, _, _) = Edited-Tracks fetched h es t in
    (
      reorder_items 0 q.rules,
      ground (arith, online, allowed),
      numbers,
      ids-perm q.rules fetched same,
      orders,
    )

-- A page without the banner tracks the list that it has just fetched.
pub rules_fetched-Tracks :
    (agent_online admin : Bool) (rules : List Rule) (p : Page)
    → (agent_online || admin) ≡ true
    → p.banner ≡ false
    → Tracks rules (rules_fetched agent_online admin rules p)
unfolding rules_fetched
rules_fetched-Tracks true admin rules p stays hidden =
    (Perm.refl (map kept rules), refl, (λ shown. cc, λ other. absurd (other refl)))
rules_fetched-Tracks false true rules p stays hidden =
    (Perm.refl (map kept rules), refl, (λ shown. cc, λ other. absurd (other refl)))
rules_fetched-Tracks false false rules p stays hidden = cc

-- When the server takes the reorder, the list fetched after it is tracked, whatever the page was: no
-- banner, and the order fetched is the one that later edits are compared with. The device is online
-- or an administrator looks at the page.
pub reorder_answered-Tracks :
    (agent_online admin : Bool) (rules : List Rule) (p : Page)
    → (agent_online || admin) ≡ true
    → Tracks rules (rules_fetched agent_online admin rules (reorder_answered true p))
unfolding reorder_answered
reorder_answered-Tracks agent_online admin rules p stays =
    rules_fetched-Tracks agent_online admin rules (record p { banner = false }) stays refl

-- A fetch leaves the banner as it was: if it was shown, it stays although the list is now in the
-- fetched order, for which a check would hide it.
pub rules_fetched-banner :
    (admin : Bool) (rules : List Rule) (p : Page)
    → p.banner ≡ true
    → ((rules_fetched true admin rules p).banner ≡ true)
      × ((check_order_changes (rules_fetched true admin rules p)).banner ≡ false)
unfolding rules_fetched check_order_changes
rules_fetched-banner admin rules p shown =
    (shown, ap not ((text_eq_iff (order_string rules) (order_string rules)).1 refl))
