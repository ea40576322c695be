-- ===== src/Firewall/Order/Drag.antt =====
-- A drag: the rows after it, in any order.
use mathlib.Core.Logic.{∥∥₁_elim, ∥∥₁_prop}
use mathlib.Core.List.{Perm, Permᴰ}
use mathlib.Core.List.Perm
use mathlib.Core.List.Permᴰ
use mathlib.Core.Bool.{Bool-set}
use networkat_cloud_web_app.Prelude.{
  ℕ, ◌+◌, ◌≡◌, refl, sym, ◌∙◌, ap, ap₂, Bool, true, false, none, some, List, [], ◌∷◌, ◌++◌,
  append_assoc, map, arith, Bool-cases, Option-cases, inl, inr, ◌==◌, not, any, find, ◌&&◌, ◌||◌,
}
use networkat_cloud_web_app.Prelude.Text.{Text}
use networkat_cloud_web_app.Firewall.Order.Numbers.{ids, kept}
use networkat_cloud_web_app.Firewall.Order.{Rule, has_rule_id, rules_of_rows}

-- No number occurs twice.
abbrev pub distinct : List ℕ → Bool
distinct [] = true
distinct (k ∷ ks) = not (any (λ j. j == k) ks) && distinct ks

any_perm : (f : ℕ → Bool) {xs ys : List ℕ} → Permᴰ xs ys → any f xs ≡ any f ys
any_perm f Permᴰ.nil = refl
any_perm f (Permᴰ.cons e d) = ap₂ (λ a b. f a || b) e (any_perm f d)
any_perm f (Permᴰ.swap {l = l} e e') = rw (e, e') (ground arith)
any_perm f (Permᴰ.trans d d') = any_perm f d ∙ any_perm f d'

==_comm : (a b : ℕ) → (a == b) ≡ (b == a)
==_comm a b = ground arith

distinct_swap : (a b : ℕ) (l : List ℕ) → distinct (a ∷ b ∷ l) ≡ distinct (b ∷ a ∷ l)
distinct_swap a b l = ground (arith, ==_comm a b)

distinct_permᴰ : {xs ys : List ℕ} → Permᴰ xs ys → distinct xs ≡ distinct ys
distinct_permᴰ Permᴰ.nil = refl
distinct_permᴰ (Permᴰ.cons {a} {b} {l₁} {l₂} e d) =
    rw e (ground (arith, any_perm (λ j. j == b) d, distinct_permᴰ d))
distinct_permᴰ (Permᴰ.swap {a} {b} {a'} {b'} {l} e e') =
    ap₂ (λ x y. distinct (x ∷ y ∷ l)) e e' ∙ distinct_swap b' a' l
distinct_permᴰ (Permᴰ.trans d d') = distinct_permᴰ d ∙ distinct_permᴰ d'

pub distinct_perm : {xs ys : List ℕ} → Perm xs ys → distinct xs ≡ distinct ys
distinct_perm {xs} {ys} p = ∥∥₁_elim p (Bool-set (distinct xs) (distinct ys)) distinct_permᴰ

-- The rule with a number, if there is one.
pick : List Rule → ℕ → List (ℕ × Bool × Text)
pick rules k = elim (find (has_rule_id k) rules) [ none ↦ [] | some r ↦ kept r ∷ [] ]

picked : List Rule → List ℕ → List (ℕ × Bool × Text)
picked rules [] = []
picked rules (k ∷ ks) = pick rules k ++ picked rules ks

rules_of_rows-kept :
    (rules : List Rule) (i : ℕ) (rows : List ℕ)
    → map kept (rules_of_rows rules i rows) ≡ picked rules rows
unfolding rules_of_rows picked pick
rules_of_rows-kept rules i [] = refl
rules_of_rows-kept rules i (k ∷ ks) = elim (Option-cases (find (has_rule_id k) rules)) [
  | inl e ↦ rw (rules_of_rows, picked, pick, e) (rules_of_rows-kept rules (i + 1) ks)
  | inr (r, e) ↦
      rw (rules_of_rows, picked, pick, e)
        (ap (λ l. kept r ∷ l) (rules_of_rows-kept rules (i + 1) ks))
]

swap_append {ℓ} : {A : Type ℓ} (xs ys zs : List A) → Perm (xs ++ (ys ++ zs)) (ys ++ (xs ++ zs))
swap_append xs ys zs =
    rw (sym (append_assoc xs ys zs), sym (append_assoc ys xs zs))
      (Perm.append_right zs (∣ Permᴰ.append_comm xs ys ∣₁))

picked_perm :
    (rules : List Rule) {xs ys : List ℕ} → Permᴰ xs ys → Perm (picked rules xs) (picked rules ys)
unfolding picked
picked_perm rules Permᴰ.nil = Perm.nil
picked_perm rules (Permᴰ.cons {a} {b} {l₁} {l₂} e d) =
    rw e (Perm.append_left (pick rules b) (picked_perm rules d))
picked_perm rules (Permᴰ.swap {a} {b} {a'} {b'} {l} e e') =
    rw (e, e') (swap_append (pick rules b') (pick rules a') (picked rules l))
picked_perm rules (Permᴰ.trans d d') = Perm.trans (picked_perm rules d) (picked_perm rules d')

picked_other :
    (r : Rule) (rs : List Rule) (ks : List ℕ)
    → any (λ j. j == r.id) ks ≡ false
    → picked (r ∷ rs) ks ≡ picked rs ks
unfolding picked pick
picked_other r rs [] h = refl
picked_other r rs (k ∷ ks) h = elim (Bool-cases (r.id == k)) [
  | inl same ↦ ground (arith, ==_comm k r.id)
  | inr other ↦
      rw (picked, pick, other) (ap (λ l. pick rs k ++ l) (picked_other r rs ks (ground arith)))
]

picked_own :
    (rules : List Rule) → distinct (ids rules) ≡ true → picked rules (ids rules) ≡ map kept rules
unfolding picked pick
picked_own [] h = refl
picked_own (r ∷ rs) h =
    let same : (r.id == r.id) ≡ true = ground arith in
    let fresh : any (λ j. j == r.id) (ids rs) ≡ false = ground arith in
    rw (picked, pick, same, picked_other r rs (ids rs) fresh)
      (ap (λ l. kept r ∷ l) (picked_own rs (ground arith)))

pub rules_of_rows-perm :
    (rules : List Rule) (i : ℕ) (rows : List ℕ)
    → distinct (ids rules) ≡ true
    → Perm rows (ids rules)
    → Perm (map kept (rules_of_rows rules i rows)) (map kept rules)
rules_of_rows-perm rules i rows h p =
    rw (rules_of_rows-kept rules i rows, sym (picked_own rules h))
      (∥∥₁_elim p ∥∥₁_prop (picked_perm rules))
