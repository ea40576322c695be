-- ===== src/Prelude/Text/Trimming.antt =====
-- Laws of trimming.
use Prim.Native.Nat.{ℕ}
use mathlib.Core.Path.{◌≡◌, refl, sym, ◌∙◌, ap}
use mathlib.Core.Bool.{Bool, false}
use mathlib.Core.List.{List, [], ◌∷◌, ◌++◌, append_assoc}
use native.Mathlib.Omega.{arith}
use networkat_cloud_web_app.Prelude.Lists.{is_nil, All}
use networkat_cloud_web_app.Prelude.Text.{Text, is_space, trim_start, trim_end, trim, join}
use networkat_cloud_web_app.Prelude.Text.Laws.{Lacks}

-- Trimming leaves no white space at the ends, and trims no further.
starts_spaced : Text → Bool
starts_spaced [] = false
starts_spaced (c ∷ s) = is_space c

trim_start-starts : (s : Text) → starts_spaced (trim_start s) ≡ false
unfolding trim_start starts_spaced
trim_start-starts [] = refl
trim_start-starts (c ∷ s) = ground (arith, trim_start-starts s)

trim_start_of_starts : (s : Text) → starts_spaced s ≡ false → trim_start s ≡ s
unfolding trim_start starts_spaced
trim_start_of_starts [] h = refl
trim_start_of_starts (c ∷ s) h = ground arith

trim_end-starts : (s : Text) → starts_spaced s ≡ false → starts_spaced (trim_end s) ≡ false
unfolding trim_end starts_spaced
trim_end-starts [] h = refl
trim_end-starts (c ∷ s) h = ground arith

trim_end-trim_end : (s : Text) → trim_end (trim_end s) ≡ trim_end s
unfolding trim_end
trim_end-trim_end [] = refl
trim_end-trim_end (c ∷ s) = ground (arith, trim_end-trim_end s)

pub trim-trim : (s : Text) → trim (trim s) ≡ trim s
unfolding trim
trim-trim s =
    ap trim_end (
      trim_start_of_starts (trim_end (trim_start s))
        (trim_end-starts (trim_start s) (trim_start-starts s)))
    ∙ trim_end-trim_end (trim_start s)

-- Trimming takes white space off a text, and no other character in.
Lacks-trim_start : (c : ℕ) (s : Text) → Lacks c s → Lacks c (trim_start s)
unfolding trim_start
Lacks-trim_start c [] h = refl
Lacks-trim_start c (d ∷ s) h = ground (arith, Lacks-trim_start c s)

Lacks-trim_end : (c : ℕ) (s : Text) → Lacks c s → Lacks c (trim_end s)
unfolding trim_end
Lacks-trim_end c [] h = refl
Lacks-trim_end c (d ∷ s) h = ground (arith, Lacks-trim_end c s)

pub Lacks-trim : (c : ℕ) (s : Text) → Lacks c s → Lacks c (trim s)
unfolding trim
Lacks-trim c s h = Lacks-trim_end c (trim_start s) (Lacks-trim_start c s h)

-- A text that is its own trim, and not empty.
abbrev pub IsTrimmed : Text → Type 0
IsTrimmed w = (trim w ≡ w) × (is_nil w ≡ false)

trim_end-append : (s w : Text) → trim_end w ≡ w → is_nil w ≡ false → trim_end (s ++ w) ≡ s ++ w
unfolding trim_end
trim_end-append [] w h k = h
trim_end-append (c ∷ s) w h k = rw (trim_end-append s w h k) (ground (arith, full s w k))
  where
    full : (s w : Text) → is_nil w ≡ false → is_nil (s ++ w) ≡ false
    full [] w h = h
    full (c ∷ s) w h = refl

starts_spaced-append :
    (w s : Text) → is_nil w ≡ false → starts_spaced w ≡ false → starts_spaced (w ++ s) ≡ false
unfolding starts_spaced
starts_spaced-append [] s h k = cc
starts_spaced-append (c ∷ w) s h k = k

trim_of_ends : (s : Text) → starts_spaced s ≡ false → trim_end s ≡ s → trim s ≡ s
unfolding trim
trim_of_ends s h k = ap trim_end (trim_start_of_starts s h) ∙ k

IsTrimmed-starts : (w : Text) → IsTrimmed w → starts_spaced w ≡ false
unfolding trim
IsTrimmed-starts w (h, _) =
    ap starts_spaced (sym h) ∙ trim_end-starts (trim_start w) (trim_start-starts w)

IsTrimmed-ends : (w : Text) → IsTrimmed w → trim_end w ≡ w
unfolding trim
IsTrimmed-ends w (h, _) = ap trim_end (sym h) ∙ trim_end-trim_end (trim_start w) ∙ h

join-ends :
    (sep w : Text) (ws : List Text)
    → All IsTrimmed (w ∷ ws)
    → (trim_end (join sep (w ∷ ws)) ≡ join sep (w ∷ ws)) × (is_nil (join sep (w ∷ ws)) ≡ false)
unfolding join
join-ends sep w [] (h, _) = (IsTrimmed-ends w h, h.1)
join-ends sep w (v ∷ ws) (h, hs) =
    let (ends, full) = join-ends sep v ws hs in
    (
      ap trim_end (sym (append_assoc w sep (join sep (v ∷ ws))))
          ∙ trim_end-append (w ++ sep) (join sep (v ∷ ws)) ends full
          ∙ append_assoc w sep (join sep (v ∷ ws)),
      full_append w (sep ++ join sep (v ∷ ws)) h.1,
    )
  where
    full_append : (w s : Text) → is_nil w ≡ false → is_nil (w ++ s) ≡ false
    full_append [] s h = cc
    full_append (c ∷ w) s h = refl

join-starts :
    (sep w : Text) (ws : List Text) → IsTrimmed w → starts_spaced (join sep (w ∷ ws)) ≡ false
unfolding join
join-starts sep w [] h = IsTrimmed-starts w h
join-starts sep w (v ∷ ws) h =
    starts_spaced-append w (sep ++ join sep (v ∷ ws)) h.1 (IsTrimmed-starts w h)

-- Joining texts that are trimmed gives one that is.
pub join-IsTrimmed :
    (sep w : Text) (ws : List Text) → All IsTrimmed (w ∷ ws) → IsTrimmed (join sep (w ∷ ws))
join-IsTrimmed sep w ws (h, hs) =
    let (ends, full) = join-ends sep w ws (h, hs) in
    (trim_of_ends (join sep (w ∷ ws)) (join-starts sep w ws h) ends, full)
