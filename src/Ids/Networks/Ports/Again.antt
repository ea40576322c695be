-- ===== src/Ids/Networks/Ports/Again.antt =====
-- `checkPorts`: a list of ports as it is shown, checked again.
use networkat_cloud_web_app.Prelude.{
  ℕ, ◌≡◌, ◌⊎◌, refl, sym, ◌∙◌, ap, ap₂, true, false, ◌||◌, none, some, List, [], ◌∷◌, ◌++◌, map,
  ltb, ◌==◌, if◌then◌else◌, length, length-map, append-nil, subst, is_nil, all, All, arith, ok,
  Result-cases, Bool-cases, inl, inr,
}
use networkat_cloud_web_app.Prelude.Text.{Text, codes, is_space, is_digit, split_on, join}
use networkat_cloud_web_app.Prelude.Text.Laws.{
  Lacks, all-Lacks, Lacks-append, split_on-Lacks, split_on-append,
}
use networkat_cloud_web_app.Prelude.Decimal.{is_digits}
use networkat_cloud_web_app.Ids.Networks.Ports.{
  as_comma, words, span_digits, upper_end, port_match, port_fits, replace_colon, check_port_parts,
  PortField, port_typed, commit_port, reset_port, undo_port, ports_body, check_ports,
}

-- A word: not empty, without white space and commas.
pub record IsWord (w : Text) : Type 0 where
  pub full : is_nil w ≡ false
  pub solid : map as_comma w ≡ w
  pub comma_free : Lacks b',' w

map-join : (s t : Text) → map as_comma (s ++ t) ≡ map as_comma s ++ map as_comma t
map-join [] t = refl
map-join (c ∷ s) t = ap (◌∷◌ (as_comma c)) (map-join s t)

-- Words joined by a comma and a space are the words of the text.
words-join : (ws : List Text) → All IsWord ws → words (join (codes ", ") ws) ≡ ws
unfolding words join is_space
words-join [] h = unfold split_on in refl
words-join (w ∷ []) (p, _) = rw (p.solid, split_on-Lacks b',' w p.comma_free, p.full) refl
words-join (w ∷ v ∷ ws) (p, ps) =
    let rest = join (codes ", ") (v ∷ ws) in
    let split : split_on b',' (map as_comma (w ++ (codes ", " ++ rest)))
        ≡ w ∷ [] ∷ split_on b',' (map as_comma rest) =
      ap (split_on b',')
        (map-join w (codes ", " ++ rest) ∙ ap (λ u. u ++ (b',' ∷ b',' ∷ map as_comma rest)) p.solid)
      ∙ split_on-append b',' w (b',' ∷ map as_comma rest) p.comma_free
      ∙ ap (◌∷◌ w) (split_on-append b',' [] (map as_comma rest) refl) in
    rw (split, p.full) (ap (◌∷◌ w) (words-join (v ∷ ws) ps))

-- What a port that fits is, and how it is sent.
pub data IsPort : Text → Text → Type 0 where
  single : (a : Text) → is_digits a ≡ true → port_fits (some (a, none)) ≡ true → IsPort a a
  range :
      (a b : Text) (c : ℕ)
      → is_digits a ≡ true
      → is_digits b ≡ true
      → (c == b'-' || c == b':') ≡ true
      → port_fits (some (a, some b)) ≡ true
      → IsPort (a ++ c ∷ b) (a ++ b'-' ∷ b)

span_digits-parts : (s : Text) → (span_digits s).0 ++ (span_digits s).1 ≡ s
unfolding span_digits
span_digits-parts [] = refl
span_digits-parts (c ∷ s) = ground (arith, span_digits-parts s)

span_digits-digits : (s : Text) → all is_digit (span_digits s).0 ≡ true
unfolding span_digits
span_digits-digits [] = refl
span_digits-digits (c ∷ s) = ground (arith, span_digits-digits s)

span_digits-digits_only : (a : Text) → all is_digit a ≡ true → span_digits a ≡ (a, [])
unfolding span_digits
span_digits-digits_only [] h = refl
span_digits-digits_only (c ∷ a) h = ground (arith, span_digits-digits_only a)

span_digits_then :
    (a b : Text) (c : ℕ)
    → all is_digit a ≡ true
    → is_digit c ≡ false
    → span_digits (a ++ c ∷ b) ≡ (a, c ∷ b)
unfolding span_digits
span_digits_then [] b c h k = rw k refl
span_digits_then (d ∷ a) b c h k = ground (arith, span_digits_then a b c)

replace_colon_digits : (a : Text) → all is_digit a ≡ true → replace_colon a ≡ a
replace_colon_digits [] h = refl
replace_colon_digits (c ∷ a) h = ground (arith, replace_colon_digits a)

replace_colon_range :
    (a b : Text) (c : ℕ)
    → all is_digit a ≡ true
    → is_digits b ≡ true
    → (c == b'-' || c == b':') ≡ true
    → replace_colon (a ++ c ∷ b) ≡ a ++ b'-' ∷ b
replace_colon_range [] b c h k m = ground (arith, replace_colon_digits b)
replace_colon_range (d ∷ a) b c h k m = ground (arith, replace_colon_range a b c)

pub port_fits-IsPort : (p : Text) → port_fits (port_match p) ≡ true → IsPort p (replace_colon p)
unfolding port_match
port_fits-IsPort p h =
    go (span_digits p).0 (span_digits p).1 (span_digits-parts p) (span_digits-digits p) h
  where
    go :
        (a rest : Text)
        → a ++ rest ≡ p
        → all is_digit a ≡ true
        → port_fits (if is_nil a then none else upper_end a rest) ≡ true
        → IsPort p (replace_colon p)
    go [] rest e d k = cc
    go (c ∷ a) [] e d k =
        subst (λ q. IsPort q (replace_colon q)) (sym (append-nil (c ∷ a)) ∙ e)
          (subst (IsPort (c ∷ a)) (sym (replace_colon_digits (c ∷ a) d)) (single (c ∷ a) d k))
    go (c ∷ a) (m ∷ b) e d k =
        let dash : (m == b'-' || m == b':') ≡ true = ground (arith, k) in
        let second : is_digits b ≡ true = ground (arith, k) in
        let fits = rw (dash, second) at k in
        subst (λ q. IsPort q (replace_colon q)) e
          (subst (IsPort ((c ∷ a) ++ m ∷ b)) (sym (replace_colon_range (c ∷ a) b m d second dash))
            (range (c ∷ a) b m d second dash fits))

digits-solid : (a : Text) → all is_digit a ≡ true → map as_comma a ≡ a
unfolding is_space
digits-solid [] h = refl
digits-solid (c ∷ a) h = ground (arith, digits-solid a)

digits-IsWord : (a : Text) → is_digits a ≡ true → IsWord a
digits-IsWord a h = record {
  full = ground (arith, h);
  solid = digits-solid a (ground (arith, h));
  comma_free = all-Lacks is_digit b',' a refl (ground (arith, h));
}

range-IsWord : (a b : Text) → is_digits a ≡ true → is_digits b ≡ true → IsWord (a ++ b'-' ∷ b)
unfolding is_space
range-IsWord a b h k =
    let p = digits-IsWord a h in
    let q = digits-IsWord b k in
    record {
      full = full_append a (b'-' ∷ b) p.full;
      solid = map-join a (b'-' ∷ b) ∙ ap₂ (λ s t. s ++ b'-' ∷ t) p.solid q.solid;
      comma_free = Lacks-append b',' a (b'-' ∷ b) p.comma_free (ground (arith, q.comma_free));
    }
  where
    full_append : (s t : Text) → is_nil s ≡ false → is_nil (s ++ t) ≡ false
    full_append [] t e = cc
    full_append (c ∷ s) t e = refl

port_match_single : (a : Text) → is_digits a ≡ true → port_match a ≡ some (a, none)
unfolding port_match
port_match_single a h = rw (span_digits-digits_only a (ground (arith, h))) (ground (arith, h))

port_match_range :
    (a b : Text)
    → is_digits a ≡ true
    → is_digits b ≡ true
    → port_match (a ++ b'-' ∷ b) ≡ some (a, some b)
unfolding port_match
port_match_range a b h k =
    rw (span_digits_then a b b'-' (ground (arith, h)) refl) (ground (arith, h, k))

IsPort-again :
    {p q : Text} → IsPort p q → (port_fits (port_match q) ≡ true) × (replace_colon q ≡ q) × IsWord q
IsPort-again (single a h fits) =
    (rw (port_match_single a h) fits, replace_colon_digits a (ground (arith, h)), digits-IsWord a h)
IsPort-again (range a b c h k dash fits) = (
  rw (port_match_range a b h k) fits,
  replace_colon_range a b b'-' (ground (arith, h)) k refl,
  range-IsWord a b h k,
)

check_port_parts-again :
    (ps : List Text)
    → check_port_parts ps ≡ ok tt
    → (check_port_parts (map replace_colon ps) ≡ ok tt)
      × (map replace_colon (map replace_colon ps) ≡ map replace_colon ps)
      × All IsWord (map replace_colon ps)
unfolding check_port_parts
check_port_parts-again [] h = (refl, refl, tt)
check_port_parts-again (p ∷ ps) h = elim (Bool-cases (port_fits (port_match p))) [
  | inr bad ↦ let never = rw (check_port_parts, bad) at h in absurd cc
  | inl fits ↦
      let (checked, kept, words) = check_port_parts-again ps (rw (check_port_parts, fits) at h) in
      let (again, same, word) = IsPort-again (port_fits-IsPort p fits) in
      (rw (check_port_parts, again) checked, ap₂ ◌∷◌ same kept, (word, words))
]

is_nil-map {ℓ κ} :
    {A : Type ℓ} {B : Type κ} (f : A → B) (xs : List A) → is_nil (map f xs) ≡ is_nil xs
is_nil-map f [] = refl
is_nil-map f (x ∷ xs) = refl

check_ports-parts :
    (v : Text) (list : List Text)
    → check_ports v ≡ ok list
    → (is_nil (words v) ≡ false)
      × (ltb 20 (length (words v)) ≡ false)
      × (check_port_parts (words v) ≡ ok tt)
      × (map replace_colon (words v) ≡ list)
unfolding check_ports
check_ports-parts v list h = elim (Bool-cases (is_nil (words v))) [
  | inl none_there ↦ let never = rw (check_ports, none_there) at h in absurd cc
  | inr full ↦ elim (Bool-cases (ltb 20 (length (words v)))) [
    | inl many ↦ let never = rw (check_ports, full, many) at h in absurd cc
    | inr few ↦ elim (Result-cases (check_port_parts (words v))) [
      | inr (e, bad) ↦ let never = rw (check_ports, full, few, bad) at h in absurd cc
      | inl (u, good) ↦
          let is_list = rw (check_ports, full, few, good) at h in (full, few, good, cc)
    ]
  ]
]

check_ports_of_parts :
    (u : Text)
    → is_nil (words u) ≡ false
    → ltb 20 (length (words u)) ≡ false
    → check_port_parts (words u) ≡ ok tt
    → check_ports u ≡ ok (map replace_colon (words u))
unfolding check_ports
check_ports_of_parts u full few checked = rw (check_ports, full, few, checked) refl

-- A list of ports that is accepted is accepted again, the same, in the way that it is shown.
pub check_ports-again :
    (v : Text) (list : List Text)
    → check_ports v ≡ ok list
    → check_ports (join (codes ", ") list) ≡ ok list
check_ports-again v list h =
    let (full, few, checked, is_list) = check_ports-parts v list h in
    let (again, same, are_words) = check_port_parts-again (words v) checked in
    let ps = map replace_colon (words v) in
    let some_port : is_nil ps ≡ false = is_nil-map replace_colon (words v) ∙ full in
    let not_many : ltb 20 (length ps) ≡ false = rw (length-map (words v) replace_colon) few in
    let back = sym (words-join ps are_words) in
    let shown : check_ports (join (codes ", ") ps) ≡ ok ps =
      check_ports_of_parts (join (codes ", ") ps) (subst (λ qs. is_nil qs ≡ false) back some_port)
        (subst (λ qs. ltb 20 (length qs) ≡ false) back not_many)
        (subst (λ qs. check_port_parts qs ≡ ok tt) back again)
      ∙ ap (λ qs. ok (map replace_colon qs)) (sym back)
      ∙ ap ok same in
    subst (λ l. check_ports (join (codes ", ") l) ≡ ok l) is_list shown

-- The ways of a field: typing, leaving it, and its two buttons.
pub data PortSteps : PortField → PortField → Type 0 where
  untouched : (f : PortField) → PortSteps f f
  typed : {f g : PortField} (value : Text) → PortSteps f g → PortSteps f (port_typed value g)
  left : {f g : PortField} → PortSteps f g → PortSteps f (commit_port g)
  reset : {f g : PortField} → PortSteps f g → PortSteps f (reset_port g)
  undone : {f g : PortField} → PortSteps f g → PortSteps f (undo_port g)

-- What is staged can be sent, and is sent as it is shown; or it is what was fetched.
abbrev pub IsStaged : PortField → PortField → Type 0
IsStaged f g =
    (g.saved ≡ f.saved)
    × (g.default ≡ f.default)
    × ((g.ports ≡ f.saved)
        ⊎ (g.ports ≡ f.default)
        ⊎ ((list : List Text) × (ports_body g.ports ≡ some list)
            × (g.ports ≡ join (codes ", ") list)))

ports_body_of_ok :
    (t : Text) (list : List Text) → check_ports t ≡ ok list → ports_body t ≡ some list
unfolding ports_body
ports_body_of_ok t list h = rw (ports_body, h) refl

commit-IsStaged : (f g : PortField) → IsStaged f g → IsStaged f (commit_port g)
unfolding commit_port
commit-IsStaged f g (saved, default, staged) = elim (Bool-cases g.pwarn) [
  | inl warned ↦ rw (commit_port, warned) (saved, default, staged)
  | inr fine ↦ elim (Result-cases (check_ports g.shown)) [
    | inr (e, bad) ↦ rw (commit_port, fine, bad) (saved, default, staged)
    | inl (list, good) ↦
        rw (commit_port, fine, good)
          (
            saved,
            default,
            inr (
                inr (
                  list,
                  ports_body_of_ok (join (codes ", ") list) list
                      (check_ports-again g.shown list good),
                  refl,
                )),
          )
  ]
]

-- Whatever is typed, left, reset and undone in the field of a service, what is staged is what was
-- fetched, the default, or a list that the request takes as it is shown.
pub PortSteps-IsStaged : (f g : PortField) → PortSteps f g → f.ports ≡ f.saved → IsStaged f g
unfolding port_typed reset_port undo_port
PortSteps-IsStaged _ _ (untouched f) h = (refl, refl, inl h)
PortSteps-IsStaged f g (typed value s) h = PortSteps-IsStaged f _ s h
PortSteps-IsStaged f g (left {g = m} s) h = commit-IsStaged f m (PortSteps-IsStaged f m s h)
PortSteps-IsStaged f g (reset {g = m} s) h =
    let (saved, default, _) = PortSteps-IsStaged f m s h in (saved, default, inr (inl default))
PortSteps-IsStaged f g (undone {g = m} s) h =
    let (saved, default, _) = PortSteps-IsStaged f m s h in (saved, default, inl saved)
