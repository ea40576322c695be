-- ===== src/AliasLists/Resolver/Reopen.antt =====
-- The resolver's settings: saved, and shown in the window again.
use networkat_cloud_web_app.Prelude.{
  ◌≡◌, refl, sym, ap, Bool, true, false, ◌&&◌, Option, none, some, List, [], ◌∷◌, ◌++◌, ltb,
  if◌then◌else◌, length, is_nil, append-nil, All, arith, Bool-cases, Option-cases, Result-cases,
  inl, inr,
}
use networkat_cloud_web_app.Prelude.Text.{Text, trim}
use networkat_cloud_web_app.AliasLists.Resolver.{
  match_upstream, validate_dns_domain, validate_dns_resolvers, DnsRow, Filled, fill_rows,
  populate_with, populate_resolver_modal, RowResult, skipped, upstream, domain_error, ip_error,
  check_dns_row, add_result, check_dns_rows, CachedConfig, ResolverConfig, field_or, ResolverPage,
  open_resolver_modal, submit_resolver_config, resolver_answered,
}
use networkat_cloud_web_app.AliasLists.Resolver.Zones.{match_upstream-row}

abbrev pub is_blank : DnsRow → Bool
is_blank row = is_nil (trim row.domain) && is_nil (trim row.dns_ip)

-- The rows that are not blank, trimmed.
abbrev pub kept_rows : List DnsRow → List DnsRow
kept_rows [] = []
kept_rows (row ∷ rows) =
    let rest = kept_rows rows in
    if is_blank row
    then rest
    else record { domain = trim row.domain; dns_ip = trim row.dns_ip } ∷ rest

-- What a row's result says of the row.
abbrev RowSays : DnsRow → RowResult → Type 0
RowSays row skipped = is_blank row ≡ true
RowSays row (upstream u) =
    (is_blank row ≡ false) × (match_upstream u ≡ some (trim row.domain, trim row.dns_ip))
RowSays row (domain_error e) = Unit
RowSays row (ip_error e) = Unit

check_dns_row-filled :
    (several : Bool) (row : DnsRow)
    → is_nil (trim row.domain) ≡ false
    → RowSays row (check_dns_row several row)
unfolding check_dns_row
check_dns_row-filled several row full =
    elim (Result-cases (validate_dns_domain (trim row.domain))) [
      | inr (e, d) ↦ rw (check_dns_row, full, d) tt
      | inl (_, d) ↦ elim (Bool-cases (is_nil (trim row.dns_ip))) [
        | inl no_ip ↦ rw (check_dns_row, full, d, no_ip) tt
        | inr with_ip ↦ elim (Result-cases (validate_dns_resolvers (trim row.dns_ip))) [
          | inr (e, i) ↦ rw (check_dns_row, full, d, with_ip, i) tt
          | inl (_, i) ↦
              rw (check_dns_row, full, d, with_ip, i)
                (rw full refl, match_upstream-row row.domain row.dns_ip d i)
        ]
      ]
    ]

check_dns_row-RowSays : (several : Bool) (row : DnsRow) → RowSays row (check_dns_row several row)
unfolding check_dns_row
check_dns_row-RowSays several row = elim (Bool-cases (is_nil (trim row.domain))) [
  | inr full ↦ check_dns_row-filled several row full
  | inl empty ↦ elim (Bool-cases (is_nil (trim row.dns_ip) && several)) [
    | inl skip ↦
        let no_ip : is_nil (trim row.dns_ip) ≡ true = ground (arith, skip) in
        rw (check_dns_row, empty, skip) (ground (arith, empty, no_ip))
    | inr stay ↦ rw (check_dns_row, empty, stay) tt
  ]
]

FilledAs : List Text → List DnsRow → Type 0
FilledAs us rows = fill_rows us ≡ record { rows = rows; original_upstreams = [] }

-- One more row.
fill_rows-step :
    (row : DnsRow) (rows : List DnsRow) (r : RowResult) (rest : Option (List Text)) (us : List Text)
    → RowSays row r
    → ((vs : List Text) → rest ≡ some vs → FilledAs vs (kept_rows rows))
    → add_result r rest ≡ some us
    → FilledAs us (kept_rows (row ∷ rows))
unfolding FilledAs fill_rows
fill_rows-step row rows skipped rest us blank later h = rw blank (later us h)
fill_rows-step row rows (upstream u) none us says later h = cc
fill_rows-step row rows (upstream u) (some vs) us (filled, read) later h =
    let is_us : u ∷ vs ≡ us = ground arith in
    rw (sym is_us) (rw (fill_rows, read, later vs refl, filled) refl)
fill_rows-step row rows (domain_error e) rest us says later h = cc
fill_rows-step row rows (ip_error e) rest us says later h = cc

fill_rows-checked :
    (several : Bool) (rows : List DnsRow) (us : List Text)
    → check_dns_rows several rows ≡ some us
    → FilledAs us (kept_rows rows)
unfolding check_dns_rows FilledAs fill_rows
fill_rows-checked several [] us h = ground arith
fill_rows-checked several (row ∷ rows) us h =
    fill_rows-step row rows (check_dns_row several row) (check_dns_rows several rows) us
      (check_dns_row-RowSays several row) (fill_rows-checked several rows) h

abbrev NoZone : Text → Type 0
NoZone u = match_upstream u ≡ none

-- Upstreams that are kept aside stay so.
fill_rows-append :
    (os us : List Text)
    → All NoZone os
    → fill_rows (os ++ us)
      ≡ record (fill_rows us) { original_upstreams = os ++ (fill_rows us).original_upstreams }
unfolding fill_rows
fill_rows-append [] us a = refl
fill_rows-append (o ∷ os) us (h, a) = rw (fill_rows, h, fill_rows-append os us a) refl

originals-NoZone : (us : List Text) → All NoZone (fill_rows us).original_upstreams
unfolding fill_rows
originals-NoZone [] = tt
originals-NoZone (u ∷ us) = elim (Option-cases (match_upstream u)) [
  | inl other ↦ rw (fill_rows, other) (other, originals-NoZone us)
  | inr (zone, read) ↦ rw (fill_rows, read) (originals-NoZone us)
]

-- The rows of the modal: those there are, or a blank one.
abbrev pub shown_rows : List DnsRow → List DnsRow
shown_rows [] = record { domain = []; dns_ip = [] } ∷ []
shown_rows (row ∷ rows) = row ∷ rows

shown_rows_lem :
    (f : Filled) (rows : List DnsRow)
    → f.rows ≡ rows
    → populate_with f ≡ record { rows = shown_rows rows; original_upstreams = f.original_upstreams }
unfolding populate_with
shown_rows_lem f [] e = rw e refl
shown_rows_lem f (row ∷ rows) e = rw e refl

submit-upstreams :
    (p : ResolverPage) (c : ResolverConfig)
    → submit_resolver_config p ≡ some c
    → (us : List Text) × FilledAs us (kept_rows p.rows)
      × (c.upstream_dns ≡ p.original_upstreams ++ us)
unfolding submit_resolver_config
submit-upstreams p c h = elim (Option-cases (check_dns_rows (ltb 1 (length p.rows)) p.rows)) [
  | inl marked ↦
      (let never = rw (submit_resolver_config, marked) at h in absurd (ground (arith, never)))
  | inr (us, e) ↦
      let sent = rw (submit_resolver_config, e) at h in
      (us, fill_rows-checked (ltb 1 (length p.rows)) p.rows us e, ground (arith, sent))
]

populate-originals :
    (us : List Text)
    → (populate_resolver_modal us).original_upstreams ≡ (fill_rows us).original_upstreams
unfolding populate_resolver_modal
populate-originals us = ap (λ f. f.original_upstreams) (shown_rows_lem (fill_rows us) _ refl)

populate-saved :
    (os us ws : List Text) (rows : List DnsRow)
    → All NoZone os
    → FilledAs us rows
    → ws ≡ os ++ us
    → populate_resolver_modal ws ≡ record { rows = shown_rows rows; original_upstreams = os }
unfolding populate_resolver_modal FilledAs
populate-saved os us ws rows apart filled sum =
    let read : fill_rows ws ≡ record { rows = rows; original_upstreams = os } =
      rw (sum, fill_rows-append os us apart, filled, append-nil os) refl in
    rw read (shown_rows_lem (record { rows = rows; original_upstreams = os }) rows refl)

-- After the settings have been saved and fetched again, the modal shows the rows that were filled
-- in, trimmed, without the blank ones (a blank row if there are no others), and the upstreams for no
-- zone are still kept aside.
pub open_resolver_modal-saved :
    (q : ResolverPage) (rows : List DnsRow) (c : ResolverConfig) (f : CachedConfig)
    → submit_resolver_config (record (open_resolver_modal q) { rows = rows }) ≡ some c
    → f.upstream_dns ≡ some c.upstream_dns
    → (let p =
          open_resolver_modal
            (resolver_answered true (some f) (record (open_resolver_modal q) { rows = rows })) in
        (p.rows ≡ shown_rows (kept_rows rows))
        × (p.original_upstreams ≡ (open_resolver_modal q).original_upstreams))
unfolding open_resolver_modal resolver_answered populate_resolver_modal
open_resolver_modal-saved q rows c f h e =
    let (us, filled, sum) = submit-upstreams (record (open_resolver_modal q) { rows = rows }) c h in
    let fetched = field_or q.cached_resolver_config (λ d. d.upstream_dns) [] in
    let apart = rw (sym (populate-originals fetched)) at (originals-NoZone fetched) in
    let shown = populate-saved _ us c.upstream_dns (kept_rows rows) apart filled sum in
    rw e (ap (λ g. g.rows) shown, ap (λ g. g.original_upstreams) shown)
