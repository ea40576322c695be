-- ===== src/Firewall/Ports/Disjoint.antt =====
-- `validatePortInput`: ports, overlaps and repeated ports.
use networkat_cloud_web_app.Prelude.{
  ℕ, ◌+◌, ◌≤◌, ◌≡◌, ◌↔◌, refl, Bool, true, false, ◌&&◌, List, [], ◌∷◌, arith, leb, if◌then◌else◌,
  any, max, All,
}
use networkat_cloud_web_app.Firewall.Ports.{Range, overlap, has_overlap}

-- The ranges in which a port lies.
abbrev pub covers : ℕ → Range → Bool
covers q r = leb r.lo q && leb q r.hi

abbrev pub times_listed : ℕ → List Range → ℕ
times_listed q [] = 0
times_listed q (r ∷ rs) = (if covers q r then 1 else 0) + times_listed q rs

abbrev pub IsRange : Range → Type 0
IsRange r = (1 ≤ r.lo) × (r.lo ≤ r.hi) × (r.hi ≤ 65535)

-- A port in one of the ranges and in `r` makes an overlap.
overlap_of_listed :
    (q : ℕ) (r : Range) (rs : List Range)
    → any (overlap r) rs ≡ false
    → covers q r ≡ true
    → times_listed q rs ≡ 0
overlap_of_listed q r [] h c = refl
overlap_of_listed q r (s ∷ rs) h c = ground (arith, overlap_of_listed q r rs)

listed_once : (rs : List Range) → has_overlap rs ≡ false → (q : ℕ) → times_listed q rs ≤ 1
unfolding has_overlap
listed_once [] h q = omega arith
listed_once (r ∷ rs) h q =
    ground (arith, overlap_of_listed q r rs, λ (e : has_overlap rs ≡ false). listed_once rs e q)

no_overlap_with :
    (r : Range) (rs : List Range)
    → IsRange r
    → All IsRange rs
    → ((q : ℕ) → covers q r ≡ true → times_listed q rs ≡ 0)
    → any (overlap r) rs ≡ false
no_overlap_with r [] v vs h = refl
no_overlap_with r (s ∷ rs) v (v', vs) h =
    ground (arith, h (max r.lo s.lo), no_overlap_with r rs v vs (λ q c. ground (arith, h q c)))

no_overlap_of_once :
    (rs : List Range) → All IsRange rs → ((q : ℕ) → times_listed q rs ≤ 1) → has_overlap rs ≡ false
unfolding has_overlap
no_overlap_of_once [] v h = refl
no_overlap_of_once (r ∷ rs) (v, vs) h =
    rw (no_overlap_with r rs v vs (λ q c. ground (arith, h q)))
      (no_overlap_of_once rs vs (λ q. ground (arith, h q)))

-- The pairs do not overlap exactly when every port lies in at most one range.
pub has_overlap_iff :
    (rs : List Range)
    → All IsRange rs
    → (has_overlap rs ≡ false) ↔ ((q : ℕ) → times_listed q rs ≤ 1)
has_overlap_iff rs v = (listed_once rs, no_overlap_of_once rs v)
