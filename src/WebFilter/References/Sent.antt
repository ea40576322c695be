-- ===== src/WebFilter/References/Sent.antt =====
-- What the domain field sends: references to saved aliases.
use networkat_cloud_web_app.Prelude.{
  ◌≡◌, refl, sym, ◌∙◌, ap, Bool, true, false, ◌||◌, Option, none, some, List, [], ◌∷◌, ◌++◌,
  if◌then◌else◌, is_nil, length, map, any, find, drop, All, arith, ok, reject-eq-ok, >>=-eq-ok,
  Bool-cases, Option-cases, inl, inr,
}
use networkat_cloud_web_app.Prelude.Text.{
  Text, codes, text_eq, trim, to_lower, starts_in, starts_with,
}
use networkat_cloud_web_app.Prelude.Text.Laws.{text_eq_refl, text_eq_iff}
use networkat_cloud_web_app.Firewall.Order.Laws.{some-injective}
use networkat_cloud_web_app.Alias.{
  Alias, id_string, text_string, field_is, is_truthy_id, is_truthy_text, is_named, strip_alias,
}
use networkat_cloud_web_app.Firewall.Addresses.{member}
use networkat_cloud_web_app.WebFilter.References.{
  key_string, goes_by, resolve_alias_name_to_id, duplicate, invalid_alias, clean_ref, check_found,
  check_domains,
}

find-any {ℓ} :
    {A : Type ℓ} (p q : A → Bool) (xs : List A) (a : A)
    → find p xs ≡ some a
    → (p a ≡ true → q a ≡ true)
    → any q xs ≡ true
find-any p q [] a h k = cc
find-any p q (x ∷ xs) a h k = elim (Bool-cases (p x)) [
  | inl hit ↦
      let is_a : x ≡ a = some-injective (rw (find, hit) at h) in
      let q_x : q x ≡ true = ap q is_a ∙ k (ap p (sym is_a) ∙ hit) in rw q_x refl
  | inr miss ↦ let rest = find-any p q xs a (rw (find, miss) at h) k in ground (arith, rest)
]

starts_with-eq : (p s : Text) → starts_with p s ≡ true → s ≡ p ++ drop (length p) s
starts_with-eq [] s h = refl
starts_with-eq (c ∷ p) [] h = cc
starts_with-eq (c ∷ p) (d ∷ s) h =
    let head : d ≡ c = ground arith in
    let rest = starts_with-eq p s (ground arith) in rw head (ap (◌∷◌ c) rest)

starts_with-drop :
    (s : Text) → starts_with (codes "alias_") s ≡ true → s ≡ codes "alias_" ++ drop 6 s
starts_with-drop s h = starts_with-eq (codes "alias_") s h

-- An alias answers to the key that its reference is made of.
key_of_slug :
    (name : Text) (alias_name slug : Option Text)
    → is_nil name ≡ false
    → (field_is alias_name name || field_is slug name) ≡ true
    → (let k = if is_truthy_text slug then text_string slug else text_string alias_name in
        (field_is alias_name k || field_is slug k) ≡ true)
unfolding text_string
key_of_slug name none none full h = cc
key_of_slug name none (some t) full h = ground (arith, text_eq_refl t, text_eq_iff t name)
key_of_slug name (some u) none full h = rw (text_eq_refl u) refl
key_of_slug name (some u) (some []) full h = rw (text_eq_refl u) refl
key_of_slug name (some u) (some (c ∷ t)) full h = ground (arith, text_eq_refl (c ∷ t))

key_string-named :
    (name : Text) (a : Alias)
    → is_nil name ≡ false
    → goes_by name a ≡ true
    → is_named (key_string a) a ≡ true
unfolding is_named
key_string-named name a full h = elim (Bool-cases (is_truthy_id a.id)) [
  | inl by_id ↦ simp (by_id, text_eq_refl (id_string a.id)) (ground arith)
  | inr no_id ↦
      let named : (field_is a.name name || field_is a.slug name) ≡ true =
        ground (arith, no_id, h) in
      let k = key_of_slug name a.name a.slug full named in ground (arith, no_id, k)
]

-- A reference by the id, the slug or the name of a saved alias.
abbrev pub IsReference : List Alias → Text → Type 0
IsReference aliases r = (k : Text) × (r ≡ codes "@alias_" ++ k) × (any (is_named k) aliases ≡ true)

resolve-IsReference :
    (aliases : List Alias) (clean : Text) (l : Alias)
    → starts_in b'@' clean ≡ true
    → is_nil (trim (drop 1 clean)) ≡ false
    → find (is_named (strip_alias (trim (drop 1 clean)))) aliases ≡ some l
    → IsReference aliases (resolve_alias_name_to_id aliases clean)
unfolding resolve_alias_name_to_id strip_alias
resolve-IsReference aliases clean l at full found =
    let name = trim (drop 1 clean) in
    elim (Bool-cases (starts_with (codes "alias_") name)) [
      | inl prefixed ↦
          let is_name = starts_with-drop name prefixed in
          (
            drop 6 name,
            rw (resolve_alias_name_to_id, at, prefixed) (ap (◌∷◌ b'@') is_name),
            find-any _ _ aliases l (rw (strip_alias, prefixed) at found) (λ h. h),
          )
      | inr plain ↦
          let found' = rw (strip_alias, plain) at found in
          elim (Option-cases (find (goes_by name) aliases)) [
            | inl none_such ↦ (
              name,
              rw (resolve_alias_name_to_id, at, plain, none_such) refl,
              find-any _ _ aliases l found' (λ h. h),
            )
            | inr (a, hit) ↦ (
              key_string a,
              rw (resolve_alias_name_to_id, at, plain, hit) refl,
              find-any (goes_by name) _ aliases a hit (key_string-named name a full),
            )
          ]
    ]

check_found-some : (o : Option Alias) → check_found o ≡ ok tt → (l : Alias) × (o ≡ some l)
check_found-some none h = cc
check_found-some (some l) h = (l, refl)

starts_in-clean_ref : (part : Text) → starts_in b'@' (clean_ref part) ≡ true
starts_in-clean_ref part = elim (Bool-cases (starts_in b'@' part)) [
  | inl there ↦ rw there there
  | inr added ↦ rw added refl
]

-- Every part of a domain field that is accepted becomes a reference to a saved alias.
pub check_domains-IsReference :
    (aliases : List Alias) (seen parts : List Text)
    → check_domains aliases seen parts ≡ ok tt
    → All (IsReference aliases) (map (λ d. resolve_alias_name_to_id aliases (clean_ref d)) parts)
unfolding check_domains
check_domains-IsReference aliases seen [] h = tt
check_domains-IsReference aliases seen (part ∷ parts) h =
    let clean = clean_ref part in
    let name = trim (drop 1 clean) in
    let (_, h₁) = reject-eq-ok (member (to_lower clean) seen) duplicate h in
    let (named, h₂) =
      reject-eq-ok (is_nil name || text_eq name (codes "alias_")) invalid_alias h₁ in
    let (_, e, h₃) = >>=-eq-ok (check_found (find (is_named (strip_alias name)) aliases)) _ h₂ in
    let (l, found) = check_found-some (find (is_named (strip_alias name)) aliases) e in
    (
      resolve-IsReference aliases clean l (starts_in-clean_ref part) (ground (arith, named)) found,
      check_domains-IsReference aliases (to_lower clean ∷ seen) parts h₃,
    )
