-- ===== src/Prelude/Text/Laws.antt =====
-- Laws of splitting, joining, trimming and comparing texts.
use Prim.Native.Nat.{ℕ, suc}
use mathlib.Core.Path.{◌≡◌, refl, sym, ◌∙◌, ap, ap₂}
use mathlib.Core.Logic.{◌↔◌, ◌≢◌, inl, inr}
use mathlib.Core.Bool.{Bool, true, false, ◌||◌, and-eq-true_iff}
use mathlib.Core.List.{List, [], ◌∷◌, ◌++◌}
use native.Mathlib.Omega.{arith}
use networkat_cloud_web_app.Prelude.Tests.{◌==◌, Bool-cases}
use networkat_cloud_web_app.Prelude.Lists.{length, get_or, is_nil, any, all, keep, All}
use networkat_cloud_web_app.Prelude.Text.{
  Text, text_eq, is_digit, is_space, trim_end, trim, includes, starts_in, ends_in, cons_head,
  split_on, join,
}

text_eq_sound : (s t : Text) → text_eq s t ≡ true → s ≡ t
unfolding text_eq
text_eq_sound [] [] h = refl
text_eq_sound [] (b ∷ t) h = cc
text_eq_sound (a ∷ s) [] h = cc
text_eq_sound (a ∷ s) (b ∷ t) h = ap₂ ◌∷◌ (ground arith) (text_eq_sound s t (ground arith))

pub text_eq_refl : (s : Text) → text_eq s s ≡ true
unfolding text_eq
text_eq_refl [] = refl
text_eq_refl (a ∷ s) = ground (arith, text_eq_refl s)

pub text_eq_iff : (s t : Text) → (text_eq s t ≡ true) ↔ (s ≡ t)
text_eq_iff s t = (text_eq_sound s t, λ e. rw e (text_eq_refl t))

-- A code unit that does not stand in a text.
abbrev pub Lacks : ℕ → Text → Type 0
Lacks c s = includes c s ≡ false

pub includes-append : (c : ℕ) (s t : Text) → includes c (s ++ t) ≡ (includes c s || includes c t)
includes-append c [] t = refl
includes-append c (d ∷ s) t = ground (arith, includes-append c s t)

pub Lacks-append : (c : ℕ) (s t : Text) → Lacks c s → Lacks c t → Lacks c (s ++ t)
Lacks-append c s t h k = ground (arith, includes-append c s t)

-- A split of a text without the separator, and of one with a separator behind such a text.
pub split_on-Lacks : (sep : ℕ) (s : Text) → Lacks sep s → split_on sep s ≡ s ∷ []
unfolding split_on
split_on-Lacks sep [] h = refl
split_on-Lacks sep (c ∷ s) h = ground (arith, split_on-Lacks sep s)

pub split_on-append :
    (sep : ℕ) (s t : Text) → Lacks sep s → split_on sep (s ++ sep ∷ t) ≡ s ∷ split_on sep t
unfolding split_on
split_on-append sep [] t h = ground arith
split_on-append sep (c ∷ s) t h = ground (arith, split_on-append sep s t)

-- Joining the parts of a split gives the text back.
join-cons_head :
    (sep c : ℕ) (ws : List Text) → join (sep ∷ []) (cons_head c ws) ≡ c ∷ join (sep ∷ []) ws
unfolding join
join-cons_head sep c [] = refl
join-cons_head sep c (w ∷ []) = refl
join-cons_head sep c (w ∷ v ∷ ws) = refl

pub split_on-ne-nil : (sep : ℕ) (s : Text) → split_on sep s ≢ []
unfolding split_on
split_on-ne-nil sep [] h = cc
split_on-ne-nil sep (c ∷ s) h = ground (arith, cons_head-ne-nil c (split_on sep s))
  where
    cons_head-ne-nil : (c : ℕ) (ws : List Text) → cons_head c ws ≢ []
    cons_head-ne-nil c [] e = cc
    cons_head-ne-nil c (w ∷ ws) e = cc

cons_head-append :
    (c : ℕ) (ws vs : List Text) → ws ≢ [] → cons_head c (ws ++ vs) ≡ cons_head c ws ++ vs
cons_head-append c [] vs h = absurd (h refl)
cons_head-append c (w ∷ ws) vs h = refl

-- A separator between two texts separates their parts.
pub split_on-between :
    (sep : ℕ) (s t : Text) → split_on sep (s ++ sep ∷ t) ≡ split_on sep s ++ split_on sep t
unfolding split_on
split_on-between sep [] t = ground arith
split_on-between sep (c ∷ s) t =
    let rest = split_on-between sep s t in
    let step = cons_head-append c (split_on sep s) (split_on sep t) (split_on-ne-nil sep s) in
    rw rest (ground (arith, step))

join-nil_cons :
    (sep : ℕ) (ws : List Text) → ws ≢ [] → join (sep ∷ []) ([] ∷ ws) ≡ sep ∷ join (sep ∷ []) ws
unfolding join
join-nil_cons sep [] h = absurd (h refl)
join-nil_cons sep (w ∷ ws) h = refl

pub join-split_on : (sep : ℕ) (s : Text) → join (sep ∷ []) (split_on sep s) ≡ s
unfolding split_on
join-split_on sep [] = unfold join in refl
join-split_on sep (c ∷ s) = ground (
  arith,
  join-cons_head sep c (split_on sep s),
  join-nil_cons sep (split_on sep s) (split_on-ne-nil sep s),
  join-split_on sep s,
)

-- A text with no white space is its own trim.
abbrev pub NoSpace : Text → Type 0
NoSpace s = any is_space s ≡ false

trim_end-NoSpace : (s : Text) → NoSpace s → trim_end s ≡ s
unfolding trim_end
trim_end-NoSpace [] h = refl
trim_end-NoSpace (c ∷ s) h = ground (arith, trim_end-NoSpace s)

pub trim-NoSpace : (s : Text) → NoSpace s → trim s ≡ s
unfolding trim
trim-NoSpace [] h = refl
trim-NoSpace (c ∷ s) h = ground (arith, trim_end-NoSpace (c ∷ s))

-- What fails a test does not stand in a text that passes it throughout.
pub all-Lacks : (p : ℕ → Bool) (c : ℕ) (s : Text) → p c ≡ false → all p s ≡ true → Lacks c s
all-Lacks p c [] h k = refl
all-Lacks p c (d ∷ s) h k = elim (Bool-cases (d == c)) [
  | inl same ↦
      let e : d ≡ c = ground arith in
      let wrong : p c ≡ true = rw (← e) ((and-eq-true_iff (p d) (all p s)).0 k).0 in cc
  | inr other ↦ ground (arith, all-Lacks p c s h)
]

-- A split has one part more than the text has separators.
pub length-split_on :
    (sep : ℕ) (s : Text) → length (split_on sep s) ≡ suc (length (keep (λ c. c == sep) s))
unfolding split_on
length-split_on sep [] = refl
length-split_on sep (c ∷ s) =
    ground
      (arith, length-split_on sep s, length-cons_head c (split_on sep s) (split_on-ne-nil sep s))
  where
    length-cons_head : (c : ℕ) (ws : List Text) → ws ≢ [] → length (cons_head c ws) ≡ length ws
    length-cons_head c [] h = absurd (h refl)
    length-cons_head c (w ∷ ws) h = refl

pub keep-Lacks : (sep : ℕ) (s : Text) → length (keep (λ c. c == sep) s) ≡ 0 → Lacks sep s
keep-Lacks sep [] h = refl
keep-Lacks sep (c ∷ s) h = ground (arith, keep-Lacks sep s)

pub keep_of_Lacks : (sep : ℕ) (s : Text) → Lacks sep s → keep (λ c. c == sep) s ≡ []
keep_of_Lacks sep [] h = refl
keep_of_Lacks sep (c ∷ s) h = ground (arith, keep_of_Lacks sep s)

pub keep-append {ℓ} :
    {A : Type ℓ} (p : A → Bool) (s t : List A) → keep p (s ++ t) ≡ keep p s ++ keep p t
keep-append p [] t = refl
keep-append p (c ∷ s) t = ground (arith, keep-append p s t)

-- The parts of a split behind the first. A separator at either end makes an empty part.
abbrev pub rest_of : List Text → List Text
rest_of [] = []
rest_of (w ∷ ws) = ws

pub rest_of-cons_head : (c : ℕ) (ws : List Text) → ws ≢ [] → rest_of (cons_head c ws) ≡ rest_of ws
rest_of-cons_head c [] h = absurd (h refl)
rest_of-cons_head c (w ∷ ws) h = refl

pub any-rest_of : (ws : List Text) → any is_nil (rest_of ws) ≡ true → any is_nil ws ≡ true
any-rest_of [] h = cc
any-rest_of (w ∷ ws) h = ground arith

pub ends_in-split_on :
    (c : ℕ) (s : Text) → ends_in c s ≡ true → any is_nil (rest_of (split_on c s)) ≡ true
unfolding split_on
ends_in-split_on c [] h = cc
ends_in-split_on c (d ∷ []) h = ground arith
ends_in-split_on c (d ∷ e ∷ s) h = elim (Bool-cases (d == c)) [
  | inl dot ↦ rw dot (any-rest_of (split_on c (e ∷ s)) (ends_in-split_on c (e ∷ s) h))
  | inr other ↦
      rw (other, rest_of-cons_head d (split_on c (e ∷ s)) (split_on-ne-nil c (e ∷ s)))
        (ends_in-split_on c (e ∷ s) h)
]

pub starts_in-split_on :
    (c : ℕ) (s : Text) → starts_in c s ≡ true → any is_nil (split_on c s) ≡ true
unfolding split_on
starts_in-split_on c [] h = cc
starts_in-split_on c (d ∷ s) h = ground arith

-- A split in two is a text on either side of the separator.
pub two_parts :
    (sep : ℕ) (s : Text)
    → length (split_on sep s) ≡ 2
    → s ≡ get_or (split_on sep s) 0 [] ++ sep ∷ get_or (split_on sep s) 1 []
two_parts sep s l = from_parts (split_on sep s) l (join-split_on sep s)
  where
    from_parts :
        (ws : List Text)
        → length ws ≡ 2
        → join (sep ∷ []) ws ≡ s
        → s ≡ get_or ws 0 [] ++ sep ∷ get_or ws 1 []
    from_parts (x ∷ y ∷ []) l e = unfold join in sym e
    from_parts [] l e = absurd (omega arith)
    from_parts (x ∷ []) l e = absurd (omega arith)
    from_parts (x ∷ y ∷ z ∷ ws) l e = absurd (omega arith)

-- A text with something left after trimming is not empty.
pub not-nil_of_trim : (s : Text) → is_nil (trim s) ≡ false → is_nil s ≡ false
not-nil_of_trim [] h = ap is_nil (sym (trim-NoSpace [] refl)) ∙ h
not-nil_of_trim (c ∷ s) h = refl

-- A joined list is split into its words again.
pub split_on-join :
    (sep : ℕ) (w : Text) (ws : List Text)
    → All (Lacks sep) (w ∷ ws)
    → split_on sep (join (sep ∷ []) (w ∷ ws)) ≡ w ∷ ws
unfolding join
split_on-join sep w [] (h, _) = split_on-Lacks sep w h
split_on-join sep w (v ∷ ws) (h, hs) =
    split_on-append sep w (join (sep ∷ []) (v ∷ ws)) h ∙ ap (◌∷◌ w) (split_on-join sep v ws hs)

-- The parts of a split have no separator.
pub split_on-All-Lacks : (sep : ℕ) (s : Text) → All (Lacks sep) (split_on sep s)
unfolding split_on
split_on-All-Lacks sep [] = (refl, tt)
split_on-All-Lacks sep (c ∷ s) =
    ground (arith, split_on-All-Lacks sep s, cons_head-Lacks c (split_on sep s))
  where
    cons_head-Lacks :
        (c : ℕ) (ws : List Text)
        → (c == sep) ≡ false
        → All (Lacks sep) ws
        → All (Lacks sep) (cons_head c ws)
    cons_head-Lacks c [] h _ = (ground arith, tt)
    cons_head-Lacks c (w ∷ ws) h (k, ks) = (ground arith, ks)

pub digits-NoSpace : (s : Text) → all is_digit s ≡ true → NoSpace s
unfolding is_space
digits-NoSpace [] h = refl
digits-NoSpace (c ∷ s) h = ground (arith, digits-NoSpace s)
