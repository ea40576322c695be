-- ===== src/Alias/RoundTrip.antt =====
-- Alias references: names become ids on the way to the server, and names again in the form.
use networkat_cloud_web_app.Prelude.{
  ℕ, ◌<◌, ◌≡◌, refl, ◌∙◌, ap, ap₂, false, some, List, [], ◌∷◌, ◌++◌, map, arith, is_nil, find, All,
}
use networkat_cloud_web_app.Prelude.Text.{
  Text, codes, is_space, trim, starts_in, split_on, join, is_digit,
}
use networkat_cloud_web_app.Prelude.Text.Laws.{all-Lacks, trim-NoSpace, digits-NoSpace}
use networkat_cloud_web_app.Prelude.Decimal.{show}
use networkat_cloud_web_app.Prelude.Decimal.Laws.{show-IsNumeral}
use networkat_cloud_web_app.Alias.{
  Alias, number, id_string, text_string, id_or_slug, name_or_slug, is_named, has_id, strip_alias,
  parts_of, part_to_id, part_to_name, resolve_alias_names_to_ids, resolve_alias_id_to_name,
}
use networkat_cloud_web_app.Alias.Parts.{IsPart, parts_of-IsPart, parts_of-join}

-- `@name` refers to a saved list: the first list that answers to the name has it as its name and a
-- number from 1 as its id, and is the first that answers to that id.
pub record RefersTo (lists : List Alias) (name : Text) (l : Alias) (n : ℕ) : Type 0 where
  pub full : is_nil name ≡ false
  pub plain : strip_alias name ≡ name
  pub named : l.name ≡ some name
  pub numbered : l.id ≡ number n
  pub saved : 0 < n
  pub by_name : find (is_named name) lists ≡ some l
  pub by_id : find (has_id (show n)) lists ≡ some l

-- A part that is no reference, or one of those.
pub data IsStable (lists : List Alias) : Text → Type 0 where
  plain : {p : Text} → starts_in b'@' p ≡ false → IsStable lists p
  reference :
      {name : Text} (l : Alias) (n : ℕ) → RefersTo lists name l n → IsStable lists (b'@' ∷ name)

strip_alias-id : (n : ℕ) → strip_alias (codes "alias_" ++ show n) ≡ show n
unfolding strip_alias
strip_alias-id n = refl

id_part : ℕ → Text
id_part n = b'@' ∷ (codes "alias_" ++ show n)

part_to_id-reference :
    {lists : List Alias} {name : Text} {l : Alias} {n : ℕ}
    → RefersTo lists name l n
    → part_to_id lists (b'@' ∷ name) ≡ id_part n
unfolding part_to_id id_or_slug id_string id_part
part_to_id-reference {lists} {name} {l} {n} r =
    let found : find (is_named (strip_alias name)) lists ≡ some l =
      ap (λ key. find (is_named key) lists) r.plain ∙ r.by_name in
    rw (found, part_to_id) (rw r.numbered (ground arith))

part_to_name-id :
    {lists : List Alias} {name : Text} {l : Alias} {n : ℕ}
    → RefersTo lists name l n
    → part_to_name lists (id_part n) ≡ b'@' ∷ name
unfolding part_to_name name_or_slug id_part text_string
part_to_name-id {lists} {name} {l} {n} r =
    let found : find (has_id (strip_alias (codes "alias_" ++ show n))) lists ≡ some l =
      ap (λ key. find (has_id key) lists) (strip_alias-id n) ∙ r.by_id in
    rw (found, part_to_name) (rw r.named (ground (arith, r.full)))

part_to_id_plain :
    (lists : List Alias) (p : Text) → starts_in b'@' p ≡ false → part_to_id lists p ≡ p
unfolding part_to_id
part_to_id_plain lists p h = rw h

part_to_name_plain :
    (lists : List Alias) (p : Text) → starts_in b'@' p ≡ false → part_to_name lists p ≡ p
unfolding part_to_name
part_to_name_plain lists p h = rw h

part_to_name-part_to_id :
    {lists : List Alias} {p : Text} → IsStable lists p → part_to_name lists (part_to_id lists p) ≡ p
part_to_name-part_to_id {lists} {p} (plain h) =
    ap (part_to_name lists) (part_to_id_plain lists p h) ∙ part_to_name_plain lists p h
part_to_name-part_to_id {lists} (reference l n r) =
    ap (part_to_name lists) (part_to_id-reference r) ∙ part_to_name-id r

id_part-IsPart : (n : ℕ) → IsPart (id_part n)
unfolding id_part is_space
id_part-IsPart n = record {
  trimmed = trim-NoSpace (id_part n) (digits-NoSpace (show n) (ground (arith, show-IsNumeral n)));
  full = refl;
  comma_free = all-Lacks is_digit b',' (show n) refl (ground (arith, show-IsNumeral n));
}

part_to_id-IsPart :
    {lists : List Alias} {p : Text} → IsStable lists p → IsPart p → IsPart (part_to_id lists p)
part_to_id-IsPart {lists} {p} (plain h) v = rw (part_to_id_plain lists p h) v
part_to_id-IsPart {lists} (reference l n r) v = rw (part_to_id-reference r) (id_part-IsPart n)

module _ (lists : List Alias) where
  map-IsPart :
      (ps : List Text)
      → All (IsStable lists) ps
      → All IsPart ps
      → All IsPart (map (part_to_id lists) ps)
  map-IsPart [] _ _ = tt
  map-IsPart (p ∷ ps) (s, ss) (v, vs) = (part_to_id-IsPart s v, map-IsPart ps ss vs)

  map_round :
      (ps : List Text)
      → All (IsStable lists) ps
      → map (part_to_name lists) (map (part_to_id lists) ps) ≡ ps
  map_round [] _ = refl
  map_round (p ∷ ps) (s, ss) = ap₂ ◌∷◌ (part_to_name-part_to_id s) (map_round ps ss)

names_to_ids-parts :
    (lists : List Alias) (value : Text)
    → resolve_alias_names_to_ids lists value
      ≡ join (codes ",") (map (part_to_id lists) (parts_of value))
unfolding resolve_alias_names_to_ids
names_to_ids-parts lists [] = unfold parts_of split_on trim join in refl
names_to_ids-parts lists (c ∷ s) = refl

ids_to_names-parts :
    (lists : List Alias) (value : Text)
    → resolve_alias_id_to_name lists value
      ≡ join (codes ", ") (map (part_to_name lists) (parts_of value))
unfolding resolve_alias_id_to_name
ids_to_names-parts lists [] = unfold parts_of split_on trim join in refl
ids_to_names-parts lists (c ∷ s) = refl

-- A field whose parts are addresses, or names of saved lists that no other list answers to first,
-- comes back from the server's form the way it was, its parts joined by ", ".
pub id_to_name-names_to_ids :
    (lists : List Alias) (value : Text)
    → All (IsStable lists) (parts_of value)
    → resolve_alias_id_to_name lists (resolve_alias_names_to_ids lists value)
      ≡ join (codes ", ") (parts_of value)
id_to_name-names_to_ids lists value stable =
    let ids = map (part_to_id lists) (parts_of value) in
    let ids_are : All IsPart ids =
      map-IsPart lists (parts_of value) stable (parts_of-IsPart value) in
    ap (resolve_alias_id_to_name lists) (names_to_ids-parts lists value)
    ∙ ids_to_names-parts lists (join (codes ",") ids)
    ∙ ap (λ ps. join (codes ", ") (map (part_to_name lists) ps)) (parts_of-join ids ids_are)
    ∙ ap (join (codes ", ")) (map_round lists (parts_of value) stable)
