-- ===== src/NetworkMath/Dns/Labels.antt =====
-- `validateDNSName`: its checks of a label, next to the label's regular expression.
use networkat_cloud_web_app.Prelude.{
  ℕ, zero, suc, ◌+◌, ◌≡◌, refl, ◌∙◌, ap, ◌↔◌, Bool, true, false, not, ◌&&◌, some, List, [], ◌∷◌,
  arith, leb, if◌then◌else◌, length, is_nil, all, any, Result, ok, err, is_ok,
}
use networkat_cloud_web_app.Prelude.Text.{Text, trim, split_on, starts_in, ends_in}
use networkat_cloud_web_app.Prelude.Text.Laws.{
  not-nil_of_trim, any-rest_of, starts_in-split_on, ends_in-split_on,
}
use networkat_cloud_web_app.NetworkMath.Dns.{
  DnsOptions, is_ldh_text, label_tail, label_regex, check_label, check_labels, check_dotted,
  check_single, length_limit, validate_dns_name,
}

label_tail_lem :
    (k : ℕ) (s : Text)
    → label_tail k s ≡ (is_ldh_text s && not (ends_in b'-' s) && leb (length s) (k + 1))
unfolding label_tail
label_tail_lem k [] = refl
label_tail_lem k (d ∷ []) = ground arith
label_tail_lem zero (d ∷ e ∷ s) = ground arith
label_tail_lem (suc k) (d ∷ e ∷ s) = ground (arith, label_tail_lem k (e ∷ s))

-- The label's expression, test by test.
pub label_regex_lem :
    (s : Text)
    → label_regex s
      ≡ (is_ldh_text s && not (starts_in b'-' s) && not (ends_in b'-' s) && leb (length s) 63)
unfolding label_regex
label_regex_lem [] = refl
label_regex_lem (c ∷ []) = ground arith
label_regex_lem (c ∷ d ∷ s) = ground (arith, label_tail_lem 61 (d ∷ s))

is_ok-check_label : (s : Text) → is_ok (check_label s) ≡ label_regex s
unfolding check_label
is_ok-check_label s = ground (arith, label_regex_lem s)

not-all_of_nil :
    (p : Text → Bool) (ws : List Text) → p [] ≡ false → any is_nil ws ≡ true → all p ws ≡ false
not-all_of_nil p [] z h = cc
not-all_of_nil p ([] ∷ ws) z h = rw z
not-all_of_nil p ((c ∷ w) ∷ ws) z h = ground (arith, not-all_of_nil p ws z)

is_ok-check_labels : (ws : List Text) → is_ok (check_labels ws) ≡ all label_regex ws
unfolding check_labels
is_ok-check_labels [] = refl
is_ok-check_labels (w ∷ ws) = ground (arith, is_ok-check_label w, is_ok-check_labels ws)

is_ok-check_dotted : (s : Text) → is_ok (check_dotted s) ≡ all label_regex (split_on b'.' s)
unfolding check_dotted
is_ok-check_dotted s = ground (
  arith,
  is_ok-check_labels (split_on b'.' s),
  not-all_of_nil label_regex (split_on b'.' s) (unfold label_regex in refl),
  starts_in-split_on b'.' s,
  ends_in-split_on b'.' s,
  any-rest_of (split_on b'.' s),
)

is_ok-check_single : (s : Text) → is_ok (check_single s) ≡ label_regex s
unfolding check_single
is_ok-check_single s = ground (arith, label_regex_lem s)

-- The names that are accepted: not too long, and of labels that match the expression.
abbrev pub is_dns_name : DnsOptions → Text → Bool
is_dns_name options s =
    leb (length s) (length_limit options)
    && (if options.allow_dots then all label_regex (split_on b'.' s) else label_regex s)

check_dotted-eq : (s t : Text) → check_dotted s ≡ ok t → t ≡ s
unfolding check_dotted
check_dotted-eq s t h = ground arith

check_single-eq : (s t : Text) → check_single s ≡ ok t → t ≡ s
unfolding check_single
check_single-eq s t h = ground arith

eq-ok_of_is_ok {ℓ κ} :
    {E : Type ℓ} {A : Type κ} (r : Result E A) (a : A)
    → ((b : A) → r ≡ ok b → b ≡ a)
    → is_ok r ≡ true
    → r ≡ ok a
eq-ok_of_is_ok (ok b) a only h = ap ok (only b refl)
eq-ok_of_is_ok (err e) a only h = cc

pub not-nil_of_dns_name :
    (options : DnsOptions) (s : Text) → is_dns_name options s ≡ true → is_nil s ≡ false
unfolding label_regex split_on
not-nil_of_dns_name options [] h = ground arith
not-nil_of_dns_name options (c ∷ s) h = refl

check_dotted_total : (s : Text) → all label_regex (split_on b'.' s) ≡ true → check_dotted s ≡ ok s
check_dotted_total s h =
    eq-ok_of_is_ok (check_dotted s) s (check_dotted-eq s) (is_ok-check_dotted s ∙ h)

check_single_total : (s : Text) → label_regex s ≡ true → check_single s ≡ ok s
check_single_total s h =
    eq-ok_of_is_ok (check_single s) s (check_single-eq s) (is_ok-check_single s ∙ h)

-- The validator accepts an input exactly when its trimmed text is not longer than the limit and
-- matches the label's regular expression, or, with dots allowed, each part between dots does; the
-- normal form is the trimmed text.
pub validate_dns_name_iff :
    (options : DnsOptions) (s t : Text)
    → (validate_dns_name options (some s) ≡ ok t)
      ↔ ((t ≡ trim s) × (is_dns_name options (trim s) ≡ true))
unfolding validate_dns_name
validate_dns_name_iff options s t =
    let u = trim s in
    (
      λ h. ground (
        arith,
        is_ok-check_dotted u,
        is_ok-check_single u,
        check_dotted-eq u t,
        check_single-eq u t,
      ),
      λ h. ground (
        arith,
        not-nil_of_dns_name options u,
        not-nil_of_trim s,
        check_dotted_total u,
        check_single_total u,
      ),
    )
