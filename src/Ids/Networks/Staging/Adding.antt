-- ===== src/Ids/Networks/Staging/Adding.antt =====
-- `doAdd`: the keys of the items of a list, and their number.
use networkat_cloud_web_app.Prelude.{
  ℕ, ◌≡◌, ◌≤◌, refl, sym, ◌∙◌, ap, ap₂, Bool, false, ◌&&◌, List, [], ◌∷◌, ◌++◌, map, is_nil, any,
  All, All-append, All-map, ltb, length, length-append, length-map, ◌+◌, arith, ok, Bool-cases, inl,
  inr,
}
use networkat_cloud_web_app.Prelude.Text.{Text, text_eq}
use networkat_cloud_web_app.Ids.Networks.Fields.{Parsed}
use networkat_cloud_web_app.Ids.Networks.Staging.{
  Content, address, alias, Item, same_content, same_key, Staged, is_removed, dup_of, new_items,
  made_of, live, live_count, as_added, do_add,
}

text_eq_comm : (s t : Text) → text_eq s t ≡ text_eq t s
unfolding text_eq
text_eq_comm [] [] = refl
text_eq_comm [] (c ∷ t) = refl
text_eq_comm (c ∷ s) [] = refl
text_eq_comm (c ∷ s) (d ∷ t) = ground (arith, text_eq_comm s t)

same_content_comm : (a b : Content) → same_content a b ≡ same_content b a
same_content_comm (address a) (address b) = text_eq_comm a b
same_content_comm (address a) (alias b) = refl
same_content_comm (alias a) (address b) = refl
same_content_comm (alias a) (alias b) = text_eq_comm a b

same_key_comm : (x e : Item) → same_key x e ≡ same_key e x
same_key_comm x e = ap₂ ◌&&◌ (same_content_comm x.content e.content) (text_eq_comm x.type e.type)

-- No two of the items have the same key.
abbrev pub Apart : List Item → Type 0
Apart [] = Unit
Apart (x ∷ xs) = All (λ y. same_key y x ≡ false) xs × Apart xs

abbrev pub live_items : List Staged → List Item
live_items rows = map (λ e. e.item) (live rows)

abbrev IsFresh : List Staged → List Item → Item → Type 0
IsFresh rows before m = (dup_of m rows ≡ false) × (any (λ o. same_key o m) before ≡ false)

IsFresh-weaken :
    (rows : List Staged) (b : Item) (before : List Item) (m : Item)
    → IsFresh rows (b ∷ before) m
    → IsFresh rows before m
IsFresh-weaken rows b before m (new, apart) = (new, ground (arith, apart))

fresh_apart :
    (rows : List Staged) (b : Item) (before : List Item) (m : Item)
    → IsFresh rows (b ∷ before) m
    → same_key m b ≡ false
fresh_apart rows b before m (new, apart) = same_key_comm m b ∙ ground (arith, apart)

made_of-IsFresh :
    (rows : List Staged) (before ms : List Item)
    → All (IsFresh rows before) (made_of rows before ms) × Apart (made_of rows before ms)
unfolding made_of
made_of-IsFresh rows before [] = (tt, tt)
made_of-IsFresh rows before (m ∷ ms) =
    let (fresh, apart) = made_of-IsFresh rows (m ∷ before) ms in
    let rest = made_of rows (m ∷ before) ms in
    let older = All-map (IsFresh-weaken rows m before) rest fresh in
    elim (Bool-cases (dup_of m rows)) [
      | inl dup ↦ rw dup (older, apart)
      | inr new ↦ elim (Bool-cases (any (λ o. same_key o m) before)) [
        | inl seen ↦ rw (new, seen) (older, apart)
        | inr first ↦
            rw (new, first)
              (((new, first), older), (All-map (fresh_apart rows m before) rest fresh, apart))
      ]
    ]

dup_of-All :
    (m : Item) (rows : List Staged)
    → dup_of m rows ≡ false
    → All (λ y. same_key y m ≡ false) (live_items rows)
unfolding dup_of
dup_of-All m [] h = tt
dup_of-All m (s ∷ rows) h =
    let rest = dup_of-All m rows (ground (arith, h)) in
    elim (Bool-cases (is_removed s.p)) [
      | inl gone ↦ rw gone rest
      | inr there ↦ rw there (ground (arith, h, there), rest)
    ]

Apart-append :
    (xs ys : List Item)
    → Apart xs
    → All (λ x. All (λ y. same_key y x ≡ false) ys) xs
    → Apart ys
    → Apart (xs ++ ys)
Apart-append [] ys _ _ apart = apart
Apart-append (x ∷ xs) ys (h, hs) (k, ks) apart =
    (All-append (λ y. same_key y x ≡ false) xs ys h k, Apart-append xs ys hs ks apart)

live-as_added :
    (ms : List Item) (rows : List Staged)
    → live_items (map as_added ms ++ rows) ≡ ms ++ live_items rows
live-as_added [] rows = refl
live-as_added (m ∷ ms) rows = ap (◌∷◌ m) (live-as_added ms rows)

live_count_lem : (rows : List Staged) → live_count rows ≡ length (live_items rows)
unfolding live_count
live_count_lem rows = sym (length-map (live rows) (λ e. e.item))

do_add-tests :
    (servers : Bool) (limit : ℕ) (type : Text) (r : Parsed) (rows after : List Staged)
    → do_add servers limit type r rows ≡ ok after
    → (let made = made_of rows [] (new_items servers type r) in
        (is_nil made ≡ false)
        × (ltb limit (live_count rows + length made) ≡ false)
        × (map as_added made ++ rows ≡ after))
unfolding do_add
do_add-tests servers limit type r rows after h = ground (arith, h)

-- If no two of the rows that are not removed have the same content and type, then after an addition
-- that is taken none have; there are more of them than before, and not more than the limit.
pub do_add-Apart :
    (servers : Bool) (limit : ℕ) (type : Text) (r : Parsed) (rows after : List Staged)
    → Apart (live_items rows)
    → do_add servers limit type r rows ≡ ok after
    → Apart (live_items after)
      × (live_count rows + 1 ≤ live_count after)
      × (live_count after ≤ limit)
do_add-Apart servers limit type r rows after apart h =
    let made = made_of rows [] (new_items servers type r) in
    let (some_made, room, is_after) = do_add-tests servers limit type r rows after h in
    let (fresh, made_apart) = made_of-IsFresh rows [] (new_items servers type r) in
    let live_after : live_items after ≡ made ++ live_items rows =
      ap live_items (sym is_after) ∙ live-as_added made rows in
    let count : live_count after ≡ length made + live_count rows =
      live_count_lem after
      ∙ ap length live_after
      ∙ length-append made (live_items rows)
      ∙ ap (λ n. length made + n) (sym (live_count_lem rows)) in
    (
      rw live_after (
          Apart-append made (live_items rows) made_apart
            (All-map (λ m f. dup_of-All m rows f.0) made fresh) apart),
      ground (arith, count, some_made),
      ground (arith, count, room),
    )
