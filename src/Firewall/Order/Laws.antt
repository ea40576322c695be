-- ===== src/Firewall/Order/Laws.antt =====
-- Laws of `splice`, of the swap and of `findIndex`.
use mathlib.Core.List.{Perm}
use mathlib.Core.List.Perm
use networkat_cloud_web_app.Prelude.{
  if◌then◌else◌, false, ℕ, zero, suc, ◌<◌, ◌≡◌, refl, sym, ap, Bool, true, Option, none, some, List,
  [], ◌∷◌, arith, length, get_elem?, Bool-cases, inl, inr,
}
use networkat_cloud_web_app.Firewall.Order.Lists.{set, remove_at, insert_at, find_index}

pub some-injective {ℓ} : {A : Type ℓ} {x y : A} → some x ≡ some y → x ≡ y
some-injective h = cc

later_index :
    (m : Option ℕ) (i : ℕ)
    → elim m [ none ↦ none | some j ↦ some (suc j) ] ≡ some i
    → (j : ℕ) × (m ≡ some j) × (suc j ≡ i)
later_index none i h = cc
later_index (some j) i h = (j, refl, some-injective h)

-- The branch that a false test takes.
if-false {ℓ} :
    {A : Type ℓ} (b : Bool) (x y : A) {r : A} → b ≡ false → (if b then x else y) ≡ r → y ≡ r
if-false true x y e h = cc
if-false false x y e h = h

module _ {ℓ} {A : Type ℓ} where
  -- What is removed can be put back at the head, or anywhere, as far as the order does not matter.
  pub remove_at-perm :
      (xs : List A) (i : ℕ) (x : A) → get_elem? xs i ≡ some x → Perm (x ∷ remove_at xs i) xs
  unfolding remove_at
  remove_at-perm [] i x h = cc
  remove_at-perm (y ∷ xs) zero x h = rw (some-injective h) (Perm.refl (x ∷ xs))
  remove_at-perm (y ∷ xs) (suc i) x h =
      Perm.trans (Perm.swap y x (remove_at xs i)) (Perm.cons y (remove_at-perm xs i x h))

  pub insert_at-perm : (xs : List A) (i : ℕ) (x : A) → Perm (insert_at xs i x) (x ∷ xs)
  unfolding insert_at
  insert_at-perm xs zero x = Perm.refl (x ∷ xs)
  insert_at-perm [] (suc i) x = Perm.refl (x ∷ [])
  insert_at-perm (y ∷ xs) (suc i) x =
      Perm.trans (Perm.cons y (insert_at-perm xs i x)) (Perm.swap x y xs)

  -- The neighbours change places: a swap is a removal and an insertion one place on.
  pub swap-neighbours :
      (xs : List A) (i : ℕ) (a b : A)
      → get_elem? xs i ≡ some a
      → get_elem? xs (suc i) ≡ some b
      → set (set xs i b) (suc i) a ≡ insert_at (remove_at xs i) (suc i) a
  unfolding set insert_at remove_at
  swap-neighbours [] i a b h k = cc
  swap-neighbours (y ∷ []) zero a b h k = cc
  swap-neighbours (y ∷ z ∷ xs) zero a b h k = ap (λ r. r ∷ a ∷ xs) (sym (some-injective k))
  swap-neighbours (y ∷ xs) (suc i) a b h k = ap (λ r. y ∷ r) (swap-neighbours xs i a b h k)

  pub swap_back-neighbours :
      (xs : List A) (i : ℕ) (a b : A)
      → get_elem? xs i ≡ some a
      → get_elem? xs (suc i) ≡ some b
      → set (set xs (suc i) a) i b ≡ insert_at (remove_at xs (suc i)) i b
  unfolding set insert_at remove_at
  swap_back-neighbours [] i a b h k = cc
  swap_back-neighbours (y ∷ []) zero a b h k = cc
  swap_back-neighbours (y ∷ z ∷ xs) zero a b h k = ap (λ r. b ∷ r ∷ xs) (sym (some-injective h))
  swap_back-neighbours (y ∷ xs) (suc i) a b h k =
      ap (λ r. y ∷ r) (swap_back-neighbours xs i a b h k)

  pub get_elem?-below : (xs : List A) (i : ℕ) → i < length xs → (x : A) × (get_elem? xs i ≡ some x)
  get_elem?-below [] i h = absurd (omega arith)
  get_elem?-below (x ∷ xs) zero h = (x, refl)
  get_elem?-below (x ∷ xs) (suc i) h = get_elem?-below xs i (omega arith)

  pub get_elem?-above : (xs : List A) (i : ℕ) (x : A) → get_elem? xs i ≡ some x → i < length xs
  get_elem?-above [] i x h = cc
  get_elem?-above (y ∷ xs) zero x h = omega arith
  get_elem?-above (y ∷ xs) (suc i) x h = omega (arith, get_elem?-above xs i x h)

  -- The found index is one of the list, and the test holds there.
  pub find_index-found :
      (p : A → Bool) (xs : List A) (i : ℕ)
      → find_index p xs ≡ some i
      → (x : A) × (get_elem? xs i ≡ some x) × (p x ≡ true)
  unfolding find_index
  find_index-found p [] i h = cc
  find_index-found p (x ∷ xs) i h = elim (Bool-cases (p x)) [
    | inl e ↦ let here : 0 ≡ i = ground arith in rw (sym here) (x, refl, e)
    | inr differs ↦
        let (j, found, eq) =
          later_index (find_index p xs) i (if-false (p x) (some 0) _ differs h) in
        rw (sym eq) (find_index-found p xs j found)
  ]
