-- ===== src/Firewall/Order/Moves.antt =====
-- What one move does to the list: one rule is taken out and put back elsewhere, and the places are
-- counted again.
use networkat_cloud_web_app.Prelude.{
  ℕ, zero, suc, ◌+◌, ◌-◌, ◌≤◌, ◌<◌, ◌≡◌, refl, sym, ◌∙◌, ap, Bool, true, false, some, List, [], ◌∷◌,
  map, arith, ltb, if◌then◌else◌, length, get_elem?, Bool-cases, Option-cases, inl, inr, ◌⊎◌, ◌==◌,
  length-map, ltb→lt, lt→ltb, ==_iff,
}
use native.Mathlib.Numerals.{add-one}
use networkat_cloud_web_app.Prelude.Text.{Text}
use networkat_cloud_web_app.Prelude.ParseInt.{JsInt, nan, plus, minus, parse_int_of}
use networkat_cloud_web_app.Firewall.Order.Lists.{remove_at, insert_at, find_index}
use networkat_cloud_web_app.Firewall.Order.Laws.{
  some-injective, find_index-found, get_elem?-below, get_elem?-above, swap-neighbours,
  swap_back-neighbours,
}
use networkat_cloud_web_app.Firewall.Order.Numbers.{ids, renumber_from-ids}
use networkat_cloud_web_app.Firewall.Order.{
  Rule, Page, has_rule_id, check_order_changes, with_rules, swap, move_rule_up, move_rule_down,
  clamp_order, change_rule_order_directly,
}

-- The page stays, or one rule changes its place.
abbrev pub Relocates : Page → Page → Type 0
Relocates p q =
    (q ≡ p)
    ⊎ ((i : ℕ) × (a : Rule) × (j : ℕ) × (get_elem? p.rules i ≡ some a)
        × (q ≡ with_rules p (insert_at (remove_at p.rules i) j a)))

pub swap_down :
    (xs : List Rule) (i : ℕ) (a b : Rule)
    → get_elem? xs i ≡ some a
    → get_elem? xs (suc i) ≡ some b
    → swap xs i (i + 1) ≡ insert_at (remove_at xs i) (suc i) a
unfolding swap
swap_down xs i a b h k = rw (swap, h, add-one, k, add-one) (swap-neighbours xs i a b h k)

pub swap_up :
    (xs : List Rule) (i : ℕ) (a b : Rule)
    → get_elem? xs i ≡ some a
    → get_elem? xs (suc i) ≡ some b
    → swap xs (suc i) i ≡ insert_at (remove_at xs (suc i)) i b
unfolding swap
swap_up xs i a b h k = rw (swap, k, h) (swap_back-neighbours xs i a b h k)

pub move_rule_up-Relocates : (k : ℕ) (p : Page) → Relocates p (move_rule_up k p)
unfolding move_rule_up
move_rule_up-Relocates k p = elim (Option-cases (find_index (has_rule_id k) p.rules)) [
  | inl missing ↦ inl (ground (arith, missing))
  | inr (zero, found) ↦ inl (ground (arith, found))
  | inr (suc i, found) ↦
      let (b, here, _) = find_index-found (has_rule_id k) p.rules (suc i) found in
      let (a, before) =
        get_elem?-below p.rules i (omega (arith, get_elem?-above p.rules (suc i) b here)) in
      let less : suc i - 1 ≡ i = omega arith in
      inr (
        suc i,
        b,
        i,
        here,
        rw (move_rule_up, found, lt→ltb 0 (suc i) (omega arith), less)
            (ap (with_rules p) (swap_up p.rules i a b before here)),
      )
]

pub move_rule_down-Relocates : (k : ℕ) (p q : Page) → move_rule_down k p ≡ some q → Relocates p q
unfolding move_rule_down
move_rule_down-Relocates k p q h = elim (Option-cases (find_index (has_rule_id k) p.rules)) [
  | inl missing ↦ inl (ground (arith, missing))
  | inr (i, found) ↦ elim (Bool-cases (ltb (i + 1) (length p.rules))) [
    | inl inside ↦
        let (a, here, _) = find_index-found (has_rule_id k) p.rules i found in
        let (b, after) = get_elem?-below p.rules (suc i) (omega (arith, ltb→lt _ _ inside)) in
        inr (
          i,
          a,
          suc i,
          here,
          some-injective (
              sym h
              ∙ rw (move_rule_down, found, inside)
                  (ap (λ l. some (with_rules p l)) (swap_down p.rules i a b here after))),
        )
    | inr outside ↦ inl (ground (arith, found))
  ]
]

pub change_rule_order_directly-Relocates :
    (k : ℕ) (v : Text) (p : Page) → Relocates p (change_rule_order_directly k v p)
unfolding change_rule_order_directly
change_rule_order_directly-Relocates k v p =
    elim (Option-cases (find_index (has_rule_id k) p.rules)) [
      | inl missing ↦ inl (ground (arith, missing))
      | inr (i, found) ↦
          let (a, here, _) = find_index-found (has_rule_id k) p.rules i found in
          rw (change_rule_order_directly, found, here)
            (either (i == clamp_order (parse_int_of v) (length p.rules) - 1) i a here)
    ]
  where
    either :
        (same : Bool) (i : ℕ) (a : Rule)
        → get_elem? p.rules i ≡ some a
        → Relocates p (
            if same
            then p
            else with_rules p (
                insert_at
                  (remove_at p.rules i)
                  (clamp_order (parse_int_of v) (length p.rules) - 1)
                  a))
    either true i a here = inl refl
    either false i a here = inr (i, a, _, here, refl)

remove_at-insert_at {ℓ} :
    {A : Type ℓ} (xs : List A) (j : ℕ) (a : A)
    → j ≤ length xs
    → (get_elem? (insert_at xs j a) j ≡ some a) × (remove_at (insert_at xs j a) j ≡ xs)
unfolding insert_at remove_at
remove_at-insert_at [] zero a h = (refl, refl)
remove_at-insert_at [] (suc j) a h = absurd (omega arith)
remove_at-insert_at (x ∷ xs) zero a h = (refl, refl)
remove_at-insert_at (x ∷ xs) (suc j) a h =
    let (at_j, others) = remove_at-insert_at xs j a (omega arith) in (at_j, ap (λ l. x ∷ l) others)

map-insert_at {ℓ κ} :
    {A : Type ℓ} {B : Type κ} (f : A → B) (xs : List A) (j : ℕ) (a : A)
    → map f (insert_at xs j a) ≡ insert_at (map f xs) j (f a)
unfolding insert_at
map-insert_at f xs zero a = refl
map-insert_at f [] (suc j) a = refl
map-insert_at f (x ∷ xs) (suc j) a = ap (λ l. f x ∷ l) (map-insert_at f xs j a)

map-remove_at {ℓ κ} :
    {A : Type ℓ} {B : Type κ} (f : A → B) (xs : List A) (j : ℕ)
    → map f (remove_at xs j) ≡ remove_at (map f xs) j
unfolding remove_at
map-remove_at f [] j = refl
map-remove_at f (x ∷ xs) zero = refl
map-remove_at f (x ∷ xs) (suc j) = ap (λ l. f x ∷ l) (map-remove_at f xs j)

length-remove_at {ℓ} :
    {A : Type ℓ} (xs : List A) (i : ℕ) → i < length xs → suc (length (remove_at xs i)) ≡ length xs
unfolding remove_at
length-remove_at [] i h = absurd (omega arith)
length-remove_at (x ∷ xs) zero h = refl
length-remove_at (x ∷ xs) (suc i) h = omega (arith, length-remove_at xs i (omega arith))

map-get_elem? {ℓ κ} :
    {A : Type ℓ} {B : Type κ} (f : A → B) (xs : List A) (i : ℕ) (a : A)
    → get_elem? xs i ≡ some a
    → get_elem? (map f xs) i ≡ some (f a)
map-get_elem? f [] i a h = cc
map-get_elem? f (x ∷ xs) zero a h = ap (λ y. some (f y)) (some-injective h)
map-get_elem? f (x ∷ xs) (suc i) a h = map-get_elem? f xs i a h

-- The place that is taken is one of the list, whatever was typed.
pub clamp_order-bounds :
    (v : JsInt) (len : ℕ) → 0 < len → (1 ≤ clamp_order v len) × (clamp_order v len ≤ len)
unfolding clamp_order
clamp_order-bounds nan len h = ground arith
clamp_order-bounds (plus n) len h = ground arith
clamp_order-bounds (minus n) len h = ground arith

change_rule_order_directly-ids :
    (k : ℕ) (v : Text) (p : Page) (i : ℕ) (a : Rule)
    → find_index (has_rule_id k) p.rules ≡ some i
    → get_elem? p.rules i ≡ some a
    → let q = change_rule_order_directly k v p in
      let place = clamp_order (parse_int_of v) (length p.rules) - 1 in
      ((place ≡ i) × (ids q.rules ≡ ids p.rules))
      ⊎ (ids q.rules ≡ insert_at (remove_at (ids p.rules) i) place a.id)
unfolding change_rule_order_directly with_rules check_order_changes
change_rule_order_directly-ids k v p i a found here =
    let place : ℕ = clamp_order (parse_int_of v) (length p.rules) - 1 in
    elim (Bool-cases (i == place)) [
      | inl same ↦
          inl (sym ((==_iff i place).0 same), rw (change_rule_order_directly, found, same) refl)
      | inr differs ↦ inr (
          rw (change_rule_order_directly, found, differs, here)
            (renumber_from-ids 0 (insert_at (remove_at p.rules i) place a)
              ∙ (map-insert_at (λ r. r.id) (remove_at p.rules i) place a
                  ∙ ap (λ l. insert_at l place a.id) (map-remove_at (λ r. r.id) p.rules i))))
    ]

-- Typing an order for the first rule with the number `k` puts that rule at the place typed, moved
-- into the list's bounds, and the other rules keep their order among themselves.
pub change_rule_order_directly_lem :
    (k : ℕ) (v : Text) (p : Page) (i : ℕ)
    → find_index (has_rule_id k) p.rules ≡ some i
    → let q = change_rule_order_directly k v p in
      let place = clamp_order (parse_int_of v) (length p.rules) - 1 in
      (get_elem? (ids q.rules) place ≡ some k)
      × (remove_at (ids q.rules) place ≡ remove_at (ids p.rules) i)
change_rule_order_directly_lem k v p i found =
    let place : ℕ = clamp_order (parse_int_of v) (length p.rules) - 1 in
    let (a, here, is_k) = find_index-found (has_rule_id k) p.rules i found in
    let same_id : a.id ≡ k = (==_iff a.id k).0 is_k in
    let inside = get_elem?-above p.rules i a here in
    elim (change_rule_order_directly-ids k v p i a found here) [
      | inl (there, same) ↦
          rw (same, there) (map-get_elem? (λ r. r.id) p.rules i a here ∙ ap some same_id, refl)
      | inr moved ↦
          let (at_place, others) =
            remove_at-insert_at (remove_at (ids p.rules) i) place a.id (place_fits inside) in
          rw moved (at_place ∙ ap some same_id, others)
    ]
  where
    place_fits :
        i < length p.rules
        → clamp_order (parse_int_of v) (length p.rules) - 1 ≤ length (remove_at (ids p.rules) i)
    place_fits inside = omega (
      arith,
      clamp_order-bounds (parse_int_of v) (length p.rules) (omega arith),
      length-map p.rules (λ r. r.id),
      length-remove_at (ids p.rules) i (omega (arith, length-map p.rules (λ r. r.id))),
    )
