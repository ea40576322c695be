-- ===== src/Firewall/Ports/Grammar.antt =====
-- `validatePortInput`: which inputs it accepts.
use networkat_cloud_web_app.Prelude.{
  ℕ, ◌≤◌, ◌<◌, ◌≡◌, refl, ◌↔◌, inl, inr, true, false, ◌||◌, Bool-cases, List, [], ◌∷◌, ◌++◌, arith,
  ltb, length, get_or, is_nil, is_nil-append_cons, any, All, ok, >>=-eq-ok, reject-eq-ok,
}
use networkat_cloud_web_app.Prelude.Text.{
  Text, is_space, is_digit, trim, includes, starts_in, ends_in, split_on,
}
use networkat_cloud_web_app.Prelude.Text.Laws.{
  Lacks, all-Lacks, includes-append, split_on-append, split_on-Lacks, split_on-ne-nil, two_parts,
  NoSpace, not-nil_of_trim, rest_of, any-rest_of, rest_of-cons_head, starts_in-split_on,
  ends_in-split_on,
}
use networkat_cloud_web_app.Prelude.Decimal.{parse_int, is_digits}
use networkat_cloud_web_app.Firewall.Ports.{
  Range, no_spaces, invalid_format, too_many, overlapping, parse_range, parse_single, parse_part,
  parse_parts, has_double_comma, has_overlap, validate_port_input,
}
use networkat_cloud_web_app.Firewall.Ports.Disjoint.{times_listed, IsRange, has_overlap_iff}

-- How a part of the list reads: digits, or two groups of digits with a dash between, the first
-- number below the second.
pub data Reads : Text → Range → Type 0 where
  one :
      {s : Text} {r : Range}
      → is_digits s ≡ true
      → r.lo ≡ parse_int s
      → r.hi ≡ parse_int s
      → IsRange r
      → Reads s r
  span :
      {s : Text} (a b : Text) {r : Range}
      → s ≡ a ++ b'-' ∷ b
      → is_digits a ≡ true
      → is_digits b ≡ true
      → r.lo ≡ parse_int a
      → r.hi ≡ parse_int b
      → r.lo < r.hi
      → IsRange r
      → Reads s r

parse_single-Reads : (s : Text) (r : Range) → parse_single s ≡ ok r → Reads s r
unfolding parse_single
parse_single-Reads s r h = one (ground arith) (ground arith) (ground arith) (ground arith)

parse_range-Reads : (s : Text) (r : Range) → parse_range s ≡ ok r → Reads s r
unfolding parse_range
parse_range-Reads s r h =
    let parts = split_on b'-' s in
    span (get_or parts 0 []) (get_or parts 1 []) (two_parts b'-' s (ground arith)) (ground arith)
      (ground arith) (ground arith) (ground arith) (ground arith) (ground arith)

parse_part-Reads : (s : Text) (r : Range) → parse_part s ≡ ok r → Reads s r
unfolding parse_part
parse_part-Reads s r h = elim (Bool-cases (includes b'-' s)) [
  | inl dash ↦ parse_range-Reads s r (ground arith)
  | inr plain ↦ parse_single-Reads s r (ground arith)
]

digits-Lacks : (c : ℕ) (s : Text) → is_digit c ≡ false → is_digits s ≡ true → Lacks c s
digits-Lacks c s h d = all-Lacks is_digit c s h (ground arith)

parse_part_of_Reads : {s : Text} {r : Range} → Reads s r → parse_part s ≡ ok r
unfolding parse_part parse_single parse_range
parse_part_of_Reads (one {s} {r} d l h v) = ground (arith, digits-Lacks b'-' s refl d)
parse_part_of_Reads (span {s} a b {r} e da db l h lt v) =
    rw
      (
        e,
        is_nil-append_cons a b'-' b,
        includes-append b'-' a (b'-' ∷ b),
        split_on-append b'-' a b (digits-Lacks b'-' a refl da),
        split_on-Lacks b'-' b (digits-Lacks b'-' b refl db),
      )
      (ground arith)

-- The parts of the list, one range for each.
pub data ReadsAll : List Text → List Range → Type 0 where
  done : ReadsAll [] []
  more :
      {s : Text} {r : Range} {ss : List Text} {rs : List Range}
      → Reads s r
      → ReadsAll ss rs
      → ReadsAll (s ∷ ss) (r ∷ rs)

parse_parts-ReadsAll : (ss : List Text) (rs : List Range) → parse_parts ss ≡ ok rs → ReadsAll ss rs
unfolding parse_parts
parse_parts-ReadsAll [] [] h = done
parse_parts-ReadsAll [] (r ∷ rs) h = ground arith
parse_parts-ReadsAll (s ∷ ss) rs h =
    let (r, e, h') = >>=-eq-ok (parse_part s) _ h in
    let (rest, e', h'') = >>=-eq-ok (parse_parts ss) _ h' in
    let same : r ∷ rest ≡ rs = ground arith in
    rw (← same) (more (parse_part-Reads s r e) (parse_parts-ReadsAll ss rest e'))

parse_parts_of_ReadsAll :
    {ss : List Text} {rs : List Range} → ReadsAll ss rs → parse_parts ss ≡ ok rs
unfolding parse_parts
parse_parts_of_ReadsAll done = refl
parse_parts_of_ReadsAll (more p ps) = rw (parse_part_of_Reads p, parse_parts_of_ReadsAll ps)

Reads-IsRange : {s : Text} {r : Range} → Reads s r → IsRange r
Reads-IsRange (one d l h v) = v
Reads-IsRange (span a b e da db l h lt v) = v

ReadsAll-IsRange : {ss : List Text} {rs : List Range} → ReadsAll ss rs → All IsRange rs
ReadsAll-IsRange done = tt
ReadsAll-IsRange (more p ps) = (Reads-IsRange p, ReadsAll-IsRange ps)

Reads-full : {s : Text} {r : Range} → Reads s r → is_nil s ≡ false
Reads-full (one {s} d l h v) = ground arith
Reads-full (span {s} a b e da db l h lt v) = rw e (is_nil-append_cons a b'-' b)

ReadsAll-full : {ss : List Text} {rs : List Range} → ReadsAll ss rs → any is_nil ss ≡ false
ReadsAll-full done = refl
ReadsAll-full (more p ps) = rw (Reads-full p) (ReadsAll-full ps)

has_double_comma-split_on :
    (s : Text) → has_double_comma s ≡ true → any is_nil (rest_of (split_on b',' s)) ≡ true
unfolding has_double_comma split_on
has_double_comma-split_on [] h = cc
has_double_comma-split_on (c ∷ s) h = ground (
  arith,
  has_double_comma-split_on s,
  starts_in-split_on b',' s,
  any-rest_of (split_on b',' s),
  rest_of-cons_head c (split_on b',' s) (split_on-ne-nil b',' s),
)

-- A list of ports that is accepted: no white space, at most 64 parts, each of them a port or a
-- range, and no port listed twice.
pub record IsPortList (value : Text) : Type 0 where
  pub ranges : List Range
  pub no_space : NoSpace value
  pub few : length (split_on b',' value) ≤ 64
  pub reads : ReadsAll (split_on b',' value) ranges
  pub once : (q : ℕ) → times_listed q ranges ≤ 1

validate_port_input-IsPortList :
    (value : Text)
    → is_nil (trim value) ≡ false
    → validate_port_input value ≡ ok tt
    → IsPortList value
unfolding validate_port_input
validate_port_input-IsPortList value full h =
    let parts = split_on b',' value in
    let checks = rw (not-nil_of_trim value full, full) at h in
    let (no_space, h₁) = reject-eq-ok (any is_space value) no_spaces checks in
    let (_, h₂) =
      reject-eq-ok (starts_in b',' value || ends_in b',' value || has_double_comma value)
        invalid_format h₁ in
    let (few, h₃) = reject-eq-ok (ltb 64 (length parts)) too_many h₂ in
    let (ranges, e, h₄) = >>=-eq-ok (parse_parts parts) _ h₃ in
    let (apart, _) = reject-eq-ok (has_overlap ranges) overlapping h₄ in
    let reads = parse_parts-ReadsAll parts ranges e in
    record {
      ranges = ranges;
      no_space = no_space;
      few = ground arith;
      reads = reads;
      once = (has_overlap_iff ranges (ReadsAll-IsRange reads)).0 apart;
    }

validate_port_input_of_IsPortList :
    (value : Text) → IsPortList value → validate_port_input value ≡ ok tt
unfolding validate_port_input
validate_port_input_of_IsPortList value p = ground (
  arith,
  p.no_space,
  p.few,
  parse_parts_of_ReadsAll p.reads,
  (has_overlap_iff p.ranges (ReadsAll-IsRange p.reads)).1 p.once,
  ReadsAll-full p.reads,
  starts_in-split_on b',' value,
  ends_in-split_on b',' value,
  has_double_comma-split_on value,
  any-rest_of (split_on b',' value),
)

-- A ports field that is not blank is accepted exactly when it has no white space and at most 64
-- comma-separated parts, each of them a port in 1-65535 or a rising range of such, and no port
-- lies in two parts.
pub validate_port_input_iff :
    (value : Text)
    → is_nil (trim value) ≡ false
    → (validate_port_input value ≡ ok tt) ↔ IsPortList value
validate_port_input_iff value full =
    (validate_port_input-IsPortList value full, validate_port_input_of_IsPortList value)
