-- ===== src/Tests/Lists.antt =====
-- The form for an alias and the resolver's settings.
use networkat_cloud_web_app.Prelude.{
  ◌≡◌, ◌≤◌, ◌↔◌, ◌⊎◌, refl, true, false, some, none, List, [], ◌∷◌, map, length,
}
use networkat_cloud_web_app.Prelude.Text.{codes, trim, split_on, text_eq, lower, to_lower}
use networkat_cloud_web_app.Prelude.Decimal.{value_from, show}
use networkat_cloud_web_app.NetworkMath.Ipv4.{
  parse_and_validate_ipv4, parse_trimmed, split_mask, parse_octets, parse_octet, parse_prefix,
  parse_mask, ipv4_result, network_ip_of, with_prefix, dotted, net32_of, ip32_of, netmask32,
}
use networkat_cloud_web_app.NetworkMath.Dns.{label_regex, label_tail}
use networkat_cloud_web_app.Firewall.Addresses.Distinct.{IsDistinct}
use networkat_cloud_web_app.Firewall.AliasEntry
use networkat_cloud_web_app.Firewall.AliasEntry.{
  address_entry, validate_alias_name, validate_alias_comment,
}
use networkat_cloud_web_app.AliasLists.Resolver.{
  span_zone, match_upstream, zone_regex, validate_dns_domain, check_octets, validate_dns_resolvers,
  DnsRow, fill_rows, populate_with, populate_resolver_modal, check_dns_row, check_dns_rows,
  CachedConfig, ResolverConfig, ResolverPage, open_resolver_modal, submit_resolver_config,
  resolver_answered,
}
use networkat_cloud_web_app.AliasLists.Resolver.Reopen.{
  kept_rows, shown_rows, open_resolver_modal-saved,
}
use networkat_cloud_web_app.AliasLists.Entry.{digit_entry, normal_entry, validate_alias_entry}
use networkat_cloud_web_app.AliasLists.Entry.Agrees.{
  without_domains, Agrees, validate_alias_entry-Agrees,
}
use networkat_cloud_web_app.AliasLists.Rows.{Entry, row_step, check_rows, sent_entries}
use networkat_cloud_web_app.AliasLists.Rows.Reads.{AreRead, lower_value}
use networkat_cloud_web_app.AliasLists.Rows.Again.{retyped}
use networkat_cloud_web_app.AliasLists.Requests.{Answer, accepted, Saved, Carried}
use networkat_cloud_web_app.AliasLists.Save.{
  ListForm, Request, ListsPage, create_list, save_list, form_rows, form_entries,
  submit_address_list,
}
use networkat_cloud_web_app.AliasLists.Save.Plan.{IsPlan, submit_address_list-Carried}
use networkat_cloud_web_app.AliasLists.Save.Stable.{form_entries_iff, submit_address_list-again}

abbrev lists_page : ListsPage
lists_page = record {
  cached_address_lists = [];
  original_slug = [];
  upstream_dns = codes "[/Corp.local/]10.0.0.1" ∷ [];
  may_use = true;
}

abbrev office_form : ListForm
office_form = record {
  is_edit = false;
  name = codes " office";
  comment = [];
  type = codes "normal";
  rows = record { value = codes " 10.0.0.5/24"; comment = codes "net" } ∷ [];
}

abbrev office_entries : List Entry
office_entries =
    record { type = address_entry; value = codes "10.0.0.0/24"; comment = some (codes "net") } ∷ []

abbrev taken : Request → Answer
taken q = accepted

abbrev office_saved : Saved Request
office_saved = record {
  requests = create_list (codes "office") [] (codes "normal") office_entries ∷ [];
  success = true;
}

office_submitted : submit_address_list taken lists_page office_form ≡ some office_saved
unfolding submit_address_list form_entries form_rows save_list check_rows row_step sent_entries
    validate_alias_entry normal_entry digit_entry validate_alias_name validate_alias_comment
    to_lower parse_and_validate_ipv4 parse_trimmed split_mask parse_octets parse_octet parse_prefix
    parse_mask ipv4_result network_ip_of with_prefix dotted net32_of ip32_of netmask32 trim split_on
    text_eq value_from show lower
office_submitted = refl

form_entries_iff_example : (form_entries lists_page office_form ≡ some office_entries) ↔ (
    (1 ≤ length (trim office_form.name))
    × (length (trim office_form.name) ≤ 200)
    × (length (trim office_form.comment) ≤ 200)
    × AreRead
        (validate_alias_entry lists_page.upstream_dns office_form.type)
        (text_eq office_form.type (codes "web_domain"))
        office_form.rows
        office_entries
    × IsDistinct (map lower_value office_entries)
    × (1 ≤ length office_entries)
    × (length office_entries ≤ 256))
form_entries_iff_example = form_entries_iff lists_page office_form office_entries

submit_address_list-again_example :
    submit_address_list taken lists_page (record office_form {
      rows = retyped office_form.rows (form_rows lists_page office_form).values;
    })
    ≡ some office_saved
submit_address_list-again_example =
    submit_address_list-again taken lists_page office_form office_saved office_submitted

submit_address_list-Carried_example :
    ((submit_address_list taken lists_page office_form ≡ none)
      × (form_entries lists_page office_form ≡ none))
    ⊎ ((entries : List Entry) × (form_entries lists_page office_form ≡ some entries)
        × (saved : Saved Request) × (submit_address_list taken lists_page office_form ≡ some saved)
        × (plan : List Request) × IsPlan lists_page office_form entries plan
        × Carried taken plan saved)
submit_address_list-Carried_example = submit_address_list-Carried taken lists_page office_form

validate_alias_entry-Agrees_example :
    Agrees lists_page.upstream_dns
      (trim (codes "db.corp.local"))
      (validate_alias_entry lists_page.upstream_dns (codes "normal") (codes "db.corp.local"))
      (AliasEntry.validate_alias_entry
        (some (without_domains lists_page.upstream_dns))
        (codes "normal")
        (codes "db.corp.local"))
validate_alias_entry-Agrees_example =
    validate_alias_entry-Agrees lists_page.upstream_dns (codes "normal") (codes "db.corp.local")

abbrev first_config : CachedConfig
first_config = record {
  upstream_dns = some (codes "9.9.9.9" ∷ codes "[/corp.local/]10.0.0.1" ∷ []);
  bootstrap_dns = none;
  all_servers = some true;
  fastest_addr = none;
}

abbrev resolver_page : ResolverPage
resolver_page = record {
  cached_resolver_config = some first_config;
  original_upstreams = [];
  rows = [];
  modal_active = false;
}

abbrev new_rows : List DnsRow
new_rows =
    record { domain = codes "lab.example "; dns_ip = codes "10.0.0.2" }
    ∷ record { domain = []; dns_ip = codes " " }
    ∷ []

abbrev new_config : ResolverConfig
new_config = record {
  upstream_dns = codes "9.9.9.9" ∷ codes "[/lab.example/]10.0.0.2" ∷ [];
  bootstrap_dns = codes "9.9.9.9" ∷ [];
  all_servers = true;
  fastest_addr = false;
}

settings_sent :
    submit_resolver_config (record (open_resolver_modal resolver_page) { rows = new_rows })
    ≡ some new_config
unfolding submit_resolver_config open_resolver_modal populate_resolver_modal populate_with fill_rows
    match_upstream span_zone check_dns_rows check_dns_row validate_dns_domain zone_regex label_regex
    label_tail validate_dns_resolvers check_octets trim split_on value_from
settings_sent = refl

abbrev fetched_config : CachedConfig
fetched_config = record first_config { upstream_dns = some new_config.upstream_dns }

open_resolver_modal-saved_example :
    (let p = open_resolver_modal (
        resolver_answered true
          (some fetched_config)
          (record (open_resolver_modal resolver_page) { rows = new_rows })) in
      (p.rows ≡ shown_rows (kept_rows new_rows))
      × (p.original_upstreams ≡ (open_resolver_modal resolver_page).original_upstreams))
open_resolver_modal-saved_example =
    open_resolver_modal-saved resolver_page new_rows new_config fetched_config settings_sent refl
