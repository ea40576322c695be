-- ===== src/AliasLists/Entry/Zones.antt =====
-- The zones of the upstream servers in the resolver's settings, and the hosts under them.
use mathlib.Core.List.{reverse, reverse-append, reverse-reverse}
use networkat_cloud_web_app.Prelude.{
  arith, ◌≡◌, ◌↔◌, ◌⊎◌, refl, sym, ◌∙◌, ap, ap₂, ◌++◌, Option-cases, Bool, true, some, List, [],
  ◌∷◌, any, Bool-cases, inl, inr,
}
use networkat_cloud_web_app.Prelude.Text.{Text, text_eq, starts_with, ends_with, to_lower}
use networkat_cloud_web_app.Prelude.Text.Laws.{text_eq_iff}
use networkat_cloud_web_app.AliasLists.Resolver.{match_upstream}
use networkat_cloud_web_app.Firewall.AliasEntry.{is_under}
use networkat_cloud_web_app.AliasLists.Entry.{get_local_forwarding_domains}

-- A zone that one of the upstream servers is for, in lower case.
pub data Zone : List Text → Text → Type 0 where
  here :
      {u : Text} {us : List Text} (zone ip : Text)
      → match_upstream u ≡ some (zone, ip)
      → Zone (u ∷ us) (to_lower zone)
  later : {u d : Text} {us : List Text} → Zone us d → Zone (u ∷ us) d

-- The host is the domain, or ends with a dot and the domain.
abbrev pub IsUnder : Text → Text → Type 0
IsUnder host d = (host ≡ d) ⊎ ((first : Text) × (host ≡ first ++ b'.' ∷ d))

abbrev pub HasZone : List Text → Type 0
HasZone us = (d : Text) × Zone us d

abbrev pub InZone : List Text → Text → Type 0
InZone us t = (d : Text) × Zone us d × IsUnder (to_lower t) d

starts_with-split : (p s : Text) → starts_with p s ≡ true → (r : Text) × (s ≡ p ++ r)
starts_with-split [] s h = (s, refl)
starts_with-split (a ∷ p) [] h = cc
starts_with-split (a ∷ p) (b ∷ s) h =
    let (r, e) = starts_with-split p s (ground (arith, h)) in
    let same : b ≡ a = ground (arith, h) in (r, ap₂ ◌∷◌ same e)

starts_with-append : (p r : Text) → starts_with p (p ++ r) ≡ true
starts_with-append [] r = refl
starts_with-append (a ∷ p) r = ground (arith, starts_with-append p r)

ends_with_iff : (p s : Text) → (ends_with p s ≡ true) ↔ ((q : Text) × (s ≡ q ++ p))
ends_with_iff p s = (
  λ h.
      (let (r, e) = starts_with-split (reverse p) (reverse s) h in
        (
          reverse r,
          sym (reverse-reverse s)
              ∙ ap reverse e
              ∙ reverse-append (reverse p) r
              ∙ ap (λ u. reverse r ++ u) (reverse-reverse p),
        )),
  λ (q, e). rw (e, reverse-append q p) (starts_with-append (reverse p) (reverse q)),
)

pub is_under_iff : (host d : Text) → (is_under host d ≡ true) ↔ IsUnder host d
is_under_iff host d = (
  λ h. elim (Bool-cases (text_eq host d)) [
    | inl same ↦ inl ((text_eq_iff host d).0 same)
    | inr other ↦ inr ((ends_with_iff (b'.' ∷ d) host).0 (rw other at h))
  ],
  back,
)
  where
    back : IsUnder host d → is_under host d ≡ true
    back (inl same) = rw ((text_eq_iff host d).1 same) refl
    back (inr longer) = ground (arith, (ends_with_iff (b'.' ∷ d) host).1 longer)

pub zones_any :
    (p : Text → Bool) {us : List Text} {d : Text}
    → Zone us d
    → p d ≡ true
    → any p (get_local_forwarding_domains us) ≡ true
unfolding get_local_forwarding_domains
zones_any p {us = []} z h = elim z [ ]
zones_any p {us = u ∷ us} (here zone ip read) h = rw (get_local_forwarding_domains, read, h) refl
zones_any p {us = u ∷ us} (later z) h = elim (Option-cases (match_upstream u)) [
  | inl other ↦ rw (get_local_forwarding_domains, other) (zones_any p z h)
  | inr ((zone, ip), read) ↦
      rw (get_local_forwarding_domains, read) (ground (arith, zones_any p z h))
]

pub zones_found :
    (p : Text → Bool) (us : List Text)
    → any p (get_local_forwarding_domains us) ≡ true
    → (d : Text) × Zone us d × (p d ≡ true)
unfolding get_local_forwarding_domains
zones_found p [] h = cc
zones_found p (u ∷ us) h = elim (Option-cases (match_upstream u)) [
  | inl other ↦
      let (d, z, e) = zones_found p us (rw (get_local_forwarding_domains, other) at h) in
      (d, later z, e)
  | inr ((zone, ip), read) ↦ elim (Bool-cases (p (to_lower zone))) [
    | inl first ↦ (to_lower zone, here zone ip read, first)
    | inr not_first ↦
        let (d, z, e) =
          zones_found p us (rw (get_local_forwarding_domains, read, not_first) at h) in
        (d, later z, e)
  ]
]
