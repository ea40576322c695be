-- ===== src/PeerDetails/Subnet.antt =====
-- The subnet field: subnets, and the routes of the other peers.
use networkat_cloud_web_app.Prelude.{
  Result-cases, ◌≡◌, ◌↔◌, refl, sym, ◌∙◌, subst, false, true, ◌||◌, none, some, List, [], ◌∷◌,
  is_nil, any, All, All-map, any-false_iff, arith, Bool-cases, Option-cases, inl, inr, Result, ok,
  err, >>=-eq-ok, reject-eq-ok,
}
use networkat_cloud_web_app.Prelude.Text.{Text, text_eq, trim, to_lower}
use networkat_cloud_web_app.Prelude.Text.Laws.{text_eq_iff}
use networkat_cloud_web_app.Prelude.Text.Trimming.{trim-trim}
use networkat_cloud_web_app.NetworkMath.Ipv4.{
  Ipv4, Ipv4Error, parse_and_validate_ipv4, parse_trimmed, subnet_options,
}
use networkat_cloud_web_app.NetworkMath.Ipv4.Normal.{parse-normalized, normalized_eq_iff}
use networkat_cloud_web_app.Firewall.Addresses.Distinct.{
  to_lower-normalized, to_lower-normalized_inj,
}
use networkat_cloud_web_app.Firewall.Order.Laws.{some-injective}
use networkat_cloud_web_app.PeerDetails.{
  subnet_required, subnet_used, Route, as_subnet, validate_ipv4_cidr, other_net, is_dup_route,
  validate_network_field,
}

-- Two texts are the same subnet: the same network address under the same prefix.
abbrev pub IsSubnet : Text → Ipv4 → Type 0
IsSubnet s r = parse_and_validate_ipv4 subnet_options (some s) ≡ ok r

abbrev pub SameSubnet : Ipv4 → Ipv4 → Type 0
SameSubnet a b = (a.network_ip ≡ b.network_ip) × (a.prefix ≡ b.prefix)

trimmed_full : (w : Text) (r : Ipv4) → parse_trimmed subnet_options w ≡ ok r → is_nil w ≡ false
unfolding parse_trimmed
trimmed_full [] r h = ground arith
trimmed_full (c ∷ w) r h = refl

-- A text that is a subnet is not blank.
IsSubnet-full : (s : Text) (r : Ipv4) → IsSubnet s r → (is_nil s || is_nil (trim s)) ≡ false
unfolding parse_and_validate_ipv4
IsSubnet-full [] r h = ground arith
IsSubnet-full (c ∷ s) r h = trimmed_full (trim (c ∷ s)) r h

as_subnet_iff : (p : Result Ipv4Error Ipv4) (r : Ipv4) → (as_subnet p ≡ ok r) ↔ (p ≡ ok r)
unfolding as_subnet
as_subnet_iff (ok a) r = (λ h. ground arith, λ h. ground arith)
as_subnet_iff (err e) r = (λ h. ground arith, λ h. ground arith)

validate_ipv4_cidr_iff : (s : Text) (r : Ipv4) → (validate_ipv4_cidr s ≡ ok r) ↔ IsSubnet s r
unfolding validate_ipv4_cidr
validate_ipv4_cidr_iff s r = elim (Bool-cases (is_nil s || is_nil (trim s))) [
  | inl blank ↦ (
    λ h.
        (let never : err subnet_required ≡ ok r = rw (validate_ipv4_cidr, blank) at h in
          ground arith),
    λ h. (let full = IsSubnet-full s r h in absurd (ground (arith, full, blank))),
  )
  | inr full ↦ rw full (as_subnet_iff (parse_and_validate_ipv4 subnet_options (some s)) r)
]

-- Trimming does not change the answer.
IsSubnet-trim : (s : Text) (r : Ipv4) → IsSubnet (trim s) r → IsSubnet s r
unfolding parse_and_validate_ipv4
IsSubnet-trim [] r h = unfold trim in h
IsSubnet-trim (c ∷ s) r h = elim (Bool-cases (is_nil (trim (c ∷ s)))) [
  | inl blank ↦ absurd (ground (arith, IsSubnet-full (trim (c ∷ s)) r h, blank))
  | inr full ↦ rw (full, trim-trim (c ∷ s)) at h
]

-- A route's network is compared equal exactly when it is the same subnet.
other_net_iff :
    (s n : Text) (r : Ipv4)
    → IsSubnet s r
    → (other_net n ≡ to_lower r.normalized) ↔ ((r' : Ipv4) × IsSubnet n r' × SameSubnet r' r)
unfolding other_net
other_net_iff s n r h = elim (Result-cases (validate_ipv4_cidr n)) [
  | inl (r', v) ↦
      let h' = (validate_ipv4_cidr_iff n r').0 v in
      rw
        (
          other_net,
          v,
          to_lower-normalized subnet_options n r' h',
          to_lower-normalized subnet_options s r h,
        )
        (
          λ same. (r', h', (normalized_eq_iff subnet_options subnet_options n s r' r h' h).0 same),
          λ (a, ha, same).
              (let is_r : ok r' ≡ ok a = sym h' ∙ ha in
                (normalized_eq_iff subnet_options subnet_options n s r' r h' h).1
                  (let e : r' ≡ a = ground arith in rw e same)),
        )
  | inr (e, v) ↦ (
    λ same.
        (let trimmed : trim n ≡ r.normalized =
            to_lower-normalized_inj subnet_options s (trim n) r h
              (rw (other_net, v) at same ∙ to_lower-normalized subnet_options s r h) in
          let normal : Ipv4 = record r {
            raw = r.normalized;
            ip = r.network_ip;
            was_adjusted = false;
          } in
          let again : IsSubnet (trim n) normal =
            subst (λ w. IsSubnet w normal) (sym trimmed) (parse-normalized subnet_options s r h) in
          let read = (validate_ipv4_cidr_iff n normal).1 (IsSubnet-trim n normal again) in
          let never : err e ≡ ok normal = sym v ∙ read in absurd (ground (arith, never))),
    λ (a, ha, same).
        (let v' = (validate_ipv4_cidr_iff n a).1 ha in
          let never : err e ≡ ok a = sym v ∙ v' in absurd (ground (arith, never))),
  )
]

-- The route is of another peer and its network is this subnet.
pub record IsTaken (peer_id : Text) (r : Ipv4) (route : Route) : Type 0 where
  pub network : Text
  pub subnet : Ipv4
  pub other_peer : text_eq route.peer peer_id ≡ false
  pub has_network : route.network ≡ some network
  pub parsed : IsSubnet network subnet
  pub same : SameSubnet subnet r

is_dup_route_iff :
    (peer_id s : Text) (r : Ipv4) (route : Route)
    → IsSubnet s r
    → (is_dup_route peer_id (to_lower r.normalized) route ≡ true) ↔ IsTaken peer_id r route
unfolding is_dup_route
is_dup_route_iff peer_id s r route h = elim (Option-cases route.network) [
  | inl missing ↦ (
    λ d.
        (let never : false ≡ true = rw (is_dup_route, missing) at d in
          absurd (ground (arith, never))),
    λ t. (let never = sym missing ∙ t.has_network in absurd (ground (arith, never))),
  )
  | inr (n, has) ↦ (
    λ d.
        (let d' = rw (is_dup_route, has) at d in
          let other : text_eq route.peer peer_id ≡ false = ground arith in
          let equal : text_eq (other_net n) (to_lower r.normalized) ≡ true = ground arith in
          let (r', h', same) = (other_net_iff s n r h).0 ((text_eq_iff _ _).0 equal) in
          record {
            network = n;
            subnet = r';
            other_peer = other;
            has_network = has;
            parsed = h';
            same = same;
          }),
    λ t.
        (let is_n : t.network ≡ n = some-injective (sym t.has_network ∙ has) in
          let parsed : IsSubnet n t.subnet = rw is_n at t.parsed in
          let equal = (text_eq_iff _ _).1 ((other_net_iff s n r h).1 (t.subnet, parsed, t.same)) in
          let full = IsSubnet-full n t.subnet parsed in
          rw (is_dup_route, has) (ground (arith, t.other_peer, full, equal))),
  )
]

untaken_iff :
    (peer_id s : Text) (r : Ipv4) (route : Route)
    → IsSubnet s r
    → (is_dup_route peer_id (to_lower r.normalized) route ≡ false) ↔ ¬ IsTaken peer_id r route
untaken_iff peer_id s r route h =
    let both = is_dup_route_iff peer_id s r route h in
    (
      λ e t. (let taken = both.1 t in absurd (ground (arith, e, taken))),
      λ free. elim (Bool-cases (is_dup_route peer_id (to_lower r.normalized) route)) [
        | inl taken ↦ absurd (free (both.0 taken))
        | inr e ↦ e
      ],
    )

-- A subnet is accepted exactly when it parses as an address with a prefix and no route of another
-- peer that parses has the same network address and prefix, however it is written; the answer is
-- that of the parser.
pub validate_network_field_iff :
    (peer_id : Text) (routes : List Route) (network : Text) (r : Ipv4)
    → (validate_network_field peer_id routes network ≡ ok (some r))
      ↔ (IsSubnet (trim network) r × All (λ (route : Route). ¬ IsTaken peer_id r route) routes)
unfolding validate_network_field
validate_network_field_iff peer_id routes network r =
    elim (Bool-cases (is_nil network || is_nil (trim network))) [
      | inl blank ↦ (
        λ h.
            (let never : ok none ≡ ok (some r) = rw (validate_network_field, blank) at h in
              ground arith),
        λ both.
            (let full = IsSubnet-full network r (IsSubnet-trim network r both.0) in
              absurd (ground (arith, full, blank))),
      )
      | inr full ↦ (
        λ h.
            (let (r', e, h₁) =
                >>=-eq-ok (validate_ipv4_cidr (trim network)) _
                  (rw (validate_network_field, full) at h) in
              let (free, h₂) =
                reject-eq-ok (any (is_dup_route peer_id (to_lower r'.normalized)) routes)
                  subnet_used h₁ in
              let is_r : r' ≡ r = ground arith in
              let parsed = (validate_ipv4_cidr_iff (trim network) r').0 e in
              subst
                (λ a.
                  IsSubnet (trim network) a
                  × All (λ (route : Route). ¬ IsTaken peer_id a route) routes)
                is_r
                (
                  parsed,
                  All-map (λ route. (untaken_iff peer_id (trim network) r' route parsed).0) routes
                      ((any-false_iff _ routes).0 free),
                )),
        λ (parsed, free).
            (let read = (validate_ipv4_cidr_iff (trim network) r).1 parsed in
              let none_taken =
                (any-false_iff (is_dup_route peer_id (to_lower r.normalized)) routes).1 (
                  All-map (λ route. (untaken_iff peer_id (trim network) r route parsed).1) routes
                    free) in
              rw (validate_network_field, full, read, none_taken) refl),
      )
    ]
