-- ===== src/Ids/Escape/Safe.antt =====
-- `esc`: the text that its replacements leave, character by character.
use networkat_cloud_web_app.Prelude.{
  ℕ, ◌≡◌, refl, sym, ◌∙◌, ap, ap₂, false, Option, none, some, [], ◌∷◌, ◌++◌, append_assoc, ◌==◌,
  if◌then◌else◌, arith, Bool-cases, inl, inr, ==_iff,
}
use networkat_cloud_web_app.Prelude.Text.{Text, codes}
use networkat_cloud_web_app.Prelude.Text.Laws.{Lacks, Lacks-append}
use networkat_cloud_web_app.Ids.Escape.{replace_all, escape_text, esc}

-- What one code unit becomes.
abbrev pub escape_unit : ℕ → Text
escape_unit d =
    if d == b'&'
    then codes "&amp;"
    else if d == b'<'
    then codes "&lt;"
    else if d == b'>'
    then codes "&gt;"
    else if d == b'"'
    then codes "&quot;"
    else if d == 39
    then codes "&#039;"
    else d ∷ []

abbrev pub escape_units : Text → Text
escape_units [] = []
escape_units (d ∷ s) = escape_unit d ++ escape_units s

replace_all-append :
    (c : ℕ) (by s t : Text) → replace_all c by (s ++ t) ≡ replace_all c by s ++ replace_all c by t
unfolding replace_all
replace_all-append c by [] t = refl
replace_all-append c by (d ∷ s) t =
    ap (λ r. (if d == c then by else d ∷ []) ++ r) (replace_all-append c by s t)
    ∙ sym (append_assoc (if d == c then by else d ∷ []) (replace_all c by s) (replace_all c by t))

escape_text-append : (s t : Text) → escape_text (s ++ t) ≡ escape_text s ++ escape_text t
unfolding escape_text
escape_text-append s t =
    rw
      (
        replace_all-append b'&' (codes "&amp;") s t,
        replace_all-append b'<' (codes "&lt;") _ _,
        replace_all-append b'>' (codes "&gt;") _ _,
        replace_all-append b'"' (codes "&quot;") _ _,
        replace_all-append 39 (codes "&#039;") _ _,
      )
      refl

replace_all-unit :
    (c : ℕ) (by : Text) (d : ℕ) → (d == c) ≡ false → replace_all c by (d ∷ []) ≡ d ∷ []
unfolding replace_all
replace_all-unit c by d h = rw h refl

escape_text_plain :
    (d : ℕ)
    → (d == b'&') ≡ false
    → (d == b'<') ≡ false
    → (d == b'>') ≡ false
    → (d == b'"') ≡ false
    → (d == 39) ≡ false
    → escape_text (d ∷ []) ≡ d ∷ []
unfolding escape_text
escape_text_plain d amp lt gt quot apos =
    rw
      (
        replace_all-unit b'&' (codes "&amp;") d amp,
        replace_all-unit b'<' (codes "&lt;") d lt,
        replace_all-unit b'>' (codes "&gt;") d gt,
        replace_all-unit b'"' (codes "&quot;") d quot,
        replace_all-unit 39 (codes "&#039;") d apos,
      )
      refl

-- One code unit through all five.
escape_text-unit : (d : ℕ) → escape_text (d ∷ []) ≡ escape_unit d
unfolding escape_text replace_all
escape_text-unit d = elim (Bool-cases (d == b'&')) [
  | inl e ↦ rw ((==_iff d b'&').0 e) refl
  | inr amp ↦ elim (Bool-cases (d == b'<')) [
    | inl e ↦ rw ((==_iff d b'<').0 e) refl
    | inr lt ↦ elim (Bool-cases (d == b'>')) [
      | inl e ↦ rw ((==_iff d b'>').0 e) refl
      | inr gt ↦ elim (Bool-cases (d == b'"')) [
        | inl e ↦ rw ((==_iff d b'"').0 e) refl
        | inr quot ↦ elim (Bool-cases (d == 39)) [
          | inl e ↦ rw ((==_iff d 39).0 e) refl
          | inr apos ↦
              escape_text_plain d amp lt gt quot apos ∙ sym (rw (amp, lt, gt, quot, apos) refl)
        ]
      ]
    ]
  ]
]

-- The five replacements in a row give what one pass over the code units gives: no replacement
-- touches what an earlier one has put in.
pub escape_text_lem : (s : Text) → escape_text s ≡ escape_units s
escape_text_lem [] = unfold escape_text replace_all in refl
escape_text_lem (d ∷ s) =
    escape_text-append (d ∷ []) s ∙ ap₂ ◌++◌ (escape_text-unit d) (escape_text_lem s)

-- A text that can stand between tags and inside quotes.
abbrev pub IsSafe : Text → Type 0
IsSafe s = Lacks b'<' s × Lacks b'>' s × Lacks b'"' s × Lacks 39 s

escape_unit-IsSafe : (d : ℕ) → IsSafe (escape_unit d)
escape_unit-IsSafe d = (ground arith, ground arith, ground arith, ground arith)

escape_units-IsSafe : (s : Text) → IsSafe (escape_units s)
escape_units-IsSafe [] = (refl, refl, refl, refl)
escape_units-IsSafe (d ∷ s) =
    let (a, b, c, e) = escape_unit-IsSafe d in
    let (a', b', c', e') = escape_units-IsSafe s in
    (
      Lacks-append b'<' (escape_unit d) (escape_units s) a a',
      Lacks-append b'>' (escape_unit d) (escape_units s) b b',
      Lacks-append b'"' (escape_unit d) (escape_units s) c c',
      Lacks-append 39 (escape_unit d) (escape_units s) e e',
    )

-- What comes out has no angle bracket and no quote of either kind, whatever goes in.
pub esc-IsSafe : (s : Option Text) → IsSafe (esc s)
unfolding esc
esc-IsSafe none = (refl, refl, refl, refl)
esc-IsSafe (some s) = rw (escape_text_lem s) (escape_units-IsSafe s)
