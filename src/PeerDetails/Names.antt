-- ===== src/PeerDetails/Names.antt =====
-- The name field: a peer's name next to the others.
use networkat_cloud_web_app.Prelude.{
  ◌≡◌, ◌≢◌, ◌↔◌, ◌⊎◌, refl, sym, false, true, ◌||◌, some, List, [], ◌∷◌, is_nil, any, All, All-map,
  any-false_iff, arith, Bool-cases, inl, inr, Result, ok, err, >>=-eq-ok, reject-eq-ok,
}
use networkat_cloud_web_app.Prelude.Text.{Text, text_eq, trim, to_lower}
use networkat_cloud_web_app.Prelude.Text.Laws.{text_eq_iff}
use networkat_cloud_web_app.Prelude.Text.Trimming.{trim-trim}
use networkat_cloud_web_app.NetworkMath.Dns.{DnsError, validate_dns_name}
use networkat_cloud_web_app.NetworkMath.Dns.Labels.{
  is_dns_name, validate_dns_name_iff, not-nil_of_dns_name,
}
use networkat_cloud_web_app.PeerDetails.{
  name_required, name_used, Peer, name_options, as_name, is_dup_name, validate_name_field,
}

as_name_iff : (p : Result DnsError Text) (t : Text) → (as_name p ≡ ok t) ↔ (p ≡ ok t)
unfolding as_name
as_name_iff (ok a) t = (λ h. ground arith, λ h. ground arith)
as_name_iff (err e) t = (λ h. ground arith, λ h. ground arith)

-- The peer is this one, or has another name up to case and white space around it.
abbrev pub IsFree : Text → Text → Peer → Type 0
IsFree peer_id name p = (text_eq p.id peer_id ≡ true) ⊎ (to_lower (trim p.name) ≢ to_lower name)

is_dup_name_iff :
    (peer_id name : Text) (p : Peer) → (is_dup_name peer_id name p ≡ false) ↔ IsFree peer_id name p
unfolding is_dup_name
is_dup_name_iff peer_id name p =
    let same = text_eq_iff (to_lower (trim p.name)) (to_lower name) in
    (
      λ e. elim (Bool-cases (text_eq p.id peer_id)) [
        | inl own ↦ inl own
        | inr other ↦ inr (λ eq. (let t = same.1 eq in absurd (ground (arith, e, other, t))))
      ],
      λ free. elim free [
        | inl own ↦ ground (arith, own)
        | inr differs ↦ elim (Bool-cases (text_eq (to_lower (trim p.name)) (to_lower name))) [
          | inl t ↦ absurd (differs (same.0 t))
          | inr f ↦ ground (arith, f)
        ]
      ],
    )

full_of_trim : (s : Text) → is_nil (trim s) ≡ false → (is_nil s || is_nil (trim s)) ≡ false
unfolding trim
full_of_trim [] h = h
full_of_trim (c ∷ s) h = h

-- A name is accepted exactly when, trimmed, it is one label of at most 63 code units and no other
-- peer has it, up to case and white space around it; the answer is the trimmed name.
pub validate_name_field_iff :
    (peer_id : Text) (peers : List Peer) (name t : Text)
    → (validate_name_field peer_id peers name ≡ ok t) ↔ (
        (t ≡ trim name)
        × (is_dns_name name_options (trim name) ≡ true)
        × All (IsFree peer_id (trim name)) peers)
unfolding validate_name_field
validate_name_field_iff peer_id peers name t =
    elim (Bool-cases (is_nil name || is_nil (trim name))) [
      | inl blank ↦ (
        λ h.
            (let never : err name_required ≡ ok t = rw (validate_name_field, blank) at h in
              ground arith),
        λ (_, label, _). absurd (
            ground (
              arith,
              full_of_trim name (not-nil_of_dns_name name_options (trim name) label),
              blank,
            )),
      )
      | inr full ↦ (
        λ h.
            (let (w, e, h₁) =
                >>=-eq-ok (as_name (validate_dns_name name_options (some (trim name)))) _
                  (rw (validate_name_field, full) at h) in
              let (free, h₂) =
                reject-eq-ok (any (is_dup_name peer_id (trim name)) peers) name_used h₁ in
              let (_, label) =
                (validate_dns_name_iff name_options (trim name) w).0 ((as_name_iff _ w).0 e) in
              (
                ground arith,
                rw (trim-trim name) at label,
                All-map (λ p. (is_dup_name_iff peer_id (trim name) p).0) peers
                    ((any-false_iff _ peers).0 free),
              )),
        λ (is_t, label, free).
            (let read = (as_name_iff _ _).1 (
                (validate_dns_name_iff name_options (trim name) (trim name)).1
                  (sym (trim-trim name), rw (sym (trim-trim name)) at label)) in
              let unused =
                (any-false_iff (is_dup_name peer_id (trim name)) peers).1
                  (All-map (λ p. (is_dup_name_iff peer_id (trim name) p).1) peers free) in
              rw (validate_name_field, full, read, unused, is_t) refl),
      )
    ]
