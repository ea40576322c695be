-- ===== src/Alias/Parts.antt =====
-- The parts of a comma-separated field, and the field made of parts.
use networkat_cloud_web_app.Prelude.{
  ℕ, ◌≡◌, refl, sym, ◌∙◌, ap, false, not, List, [], ◌∷◌, ◌++◌, map, arith, is_nil, keep, All,
}
use networkat_cloud_web_app.Prelude.Text.{Text, codes, is_space, trim, split_on, join}
use networkat_cloud_web_app.Prelude.Text.Laws.{
  Lacks, split_on-join, split_on-All-Lacks, split_on-Lacks, keep-append, split_on-between,
}
use networkat_cloud_web_app.Prelude.Text.Trimming.{Lacks-trim, trim-trim}
use networkat_cloud_web_app.Alias.{parts_of}

-- What a part is: trimmed, not empty, without a comma.
pub record IsPart (p : Text) : Type 0 where
  pub trimmed : trim p ≡ p
  pub full : is_nil p ≡ false
  pub comma_free : Lacks b',' p

abbrev pub full_parts : List Text → List Text
full_parts ws = keep (λ p. not (is_nil p)) (map trim ws)

full_parts-IsPart : (ws : List Text) → All (Lacks b',') ws → All IsPart (full_parts ws)
full_parts-IsPart [] h = tt
full_parts-IsPart (w ∷ ws) (h, hs) = ground (
  arith,
  full_parts-IsPart ws hs,
  λ (e : is_nil (trim w) ≡ false).
      let p : IsPart (trim w) = record {
        trimmed = trim-trim w;
        full = e;
        comma_free = Lacks-trim b',' w h;
      } in
      p,
)

-- Every part of a field is trimmed, not empty and without a comma.
pub parts_of-IsPart : (value : Text) → All IsPart (parts_of value)
unfolding parts_of
parts_of-IsPart value = full_parts-IsPart (split_on b',' value) (split_on-All-Lacks b',' value)

full_parts_of_IsPart : (ws : List Text) → All IsPart ws → full_parts ws ≡ ws
full_parts_of_IsPart [] h = refl
full_parts_of_IsPart (w ∷ ws) (p, ps) =
    rw (p.trimmed, p.full) (ap (◌∷◌ w) (full_parts_of_IsPart ws ps))

All-Lacks : (ws : List Text) → All IsPart ws → All (Lacks b',') ws
All-Lacks [] h = tt
All-Lacks (w ∷ ws) (p, ps) = (p.comma_free, All-Lacks ws ps)

-- Parts joined by commas are the parts of the field.
pub parts_of-join : (ws : List Text) → All IsPart ws → parts_of (join (codes ",") ws) ≡ ws
unfolding parts_of
parts_of-join [] h = unfold join split_on trim in refl
parts_of-join (w ∷ ws) h =
    rw (split_on-join b',' w ws (All-Lacks (w ∷ ws) h)) (full_parts_of_IsPart (w ∷ ws) h)

spaced : List Text → List Text
spaced ws = map (λ w. b' ' ∷ w) ws

join-longer :
    (c : ℕ) (w : Text) (ws : List Text)
    → join (codes ",") ((c ∷ w) ∷ ws) ≡ c ∷ join (codes ",") (w ∷ ws)
unfolding join
join-longer c w [] = refl
join-longer c w (v ∷ ws) = refl

join-spaced :
    (w : Text) (ws : List Text) → join (codes ", ") (w ∷ ws) ≡ join (codes ",") (w ∷ spaced ws)
unfolding join spaced
join-spaced w [] = refl
join-spaced w (v ∷ ws) =
    ap (λ t. w ++ (b',' ∷ t))
      (ap (◌∷◌ b' ') (join-spaced v ws) ∙ sym (join-longer b' ' v (spaced ws)))

trim-space : (w : Text) → trim (b' ' ∷ w) ≡ trim w
unfolding trim is_space
trim-space w = refl

full_parts-spaced : (ws : List Text) → full_parts (spaced ws) ≡ full_parts ws
unfolding spaced
full_parts-spaced [] = refl
full_parts-spaced (w ∷ ws) = rw (trim-space w, full_parts-spaced ws)

spaced-Lacks : (ws : List Text) → All (Lacks b',') ws → All (Lacks b',') (spaced ws)
unfolding spaced
spaced-Lacks [] h = tt
spaced-Lacks (w ∷ ws) (h, hs) = (ground arith, spaced-Lacks ws hs)

-- So are parts joined by commas and spaces.
pub parts_of-join_spaced : (ws : List Text) → All IsPart ws → parts_of (join (codes ", ") ws) ≡ ws
unfolding parts_of
parts_of-join_spaced [] h = unfold join split_on trim in refl
parts_of-join_spaced (w ∷ ws) (p, ps) =
    ap full_parts (
      ap (split_on b',') (join-spaced w ws)
      ∙ split_on-join b',' w (spaced ws) (p.comma_free, spaced-Lacks ws (All-Lacks ws ps)))
    ∙ head_and_rest
  where
    head_and_rest : full_parts (w ∷ spaced ws) ≡ w ∷ ws
    head_and_rest =
        rw (p.trimmed, p.full) (ap (◌∷◌ w) (full_parts-spaced ws ∙ full_parts_of_IsPart ws ps))

map-append : (s t : List Text) → map trim (s ++ t) ≡ map trim s ++ map trim t
map-append [] t = refl
map-append (w ∷ s) t = ap (◌∷◌ (trim w)) (map-append s t)

-- A part that is put behind the others, after a comma and a space.
pub parts_of-append :
    (s w : Text) → IsPart w → parts_of (s ++ (codes ", " ++ w)) ≡ parts_of s ++ w ∷ []
unfolding parts_of
parts_of-append s w p =
    let last : full_parts (split_on b',' (b' ' ∷ w)) ≡ w ∷ [] =
      ap full_parts (split_on-Lacks b',' (b' ' ∷ w) (ground (arith, p.comma_free)))
      ∙ rw (trim-space w, p.trimmed, p.full) refl in
    ap full_parts (split_on-between b',' s (b' ' ∷ w))
    ∙ ap (keep (λ q. not (is_nil q))) (map-append (split_on b',' s) (split_on b',' (b' ' ∷ w)))
    ∙ keep-append (λ q. not (is_nil q)) (map trim (split_on b',' s))
        (map trim (split_on b',' (b' ' ∷ w)))
    ∙ ap (◌++◌ (parts_of s)) last
