-- ===== src/WebFilter/RuleForm/Reopen.antt =====
-- `openEditRuleModal` and `submitRuleForm`: a rule that is opened and sent.
use networkat_cloud_web_app.Prelude.{
  ◌≡◌, refl, sym, ◌∙◌, ap, ap₂, subst, Bool, false, some, List, [], ◌∷◌, ◌++◌, map, find, All,
  arith,
}
use networkat_cloud_web_app.Prelude.Text.{Text, codes, text_eq, trim, starts_with, join}
use networkat_cloud_web_app.Prelude.Text.Laws.{Lacks}
use networkat_cloud_web_app.Prelude.Text.Trimming.{IsTrimmed, join-IsTrimmed}
use networkat_cloud_web_app.Alias.{Alias, name_or_slug, strip_alias, parts_of}
use networkat_cloud_web_app.Alias.Parts.{IsPart, parts_of-join_spaced}
use networkat_cloud_web_app.WebFilter.References.{
  has_key, key_string, goes_by, clean_ref, resolve_alias_id_to_name, resolve_alias_name_to_id,
}
use networkat_cloud_web_app.WebFilter.AliasForm.Reference.{reference-IsPart}
use networkat_cloud_web_app.WebFilter.RuleForm.{
  RuleForm, WebRule, names_of, edit_form, open_edit_rule_modal, Payload, put, sent, domains_sent,
  payload_of, request_of, submit_rule_form,
}

-- A reference by the key of an alias, the first that answers to the key and the first that goes by
-- its name; the name can stand in a field.
pub record RefersTo (aliases : List Alias) (r : Text) (a : Alias) : Type 0 where
  pub reference : r ≡ codes "@alias_" ++ key_string a
  pub by_key : find (has_key (key_string a)) aliases ≡ some a
  pub by_name : find (goes_by (name_or_slug a)) aliases ≡ some a
  pub trimmed : IsTrimmed (name_or_slug a)
  pub comma_free : Lacks b',' (name_or_slug a)
  pub plain : starts_with (codes "alias_") (name_or_slug a) ≡ false

abbrev pub IsReadable : List Alias → Text → Type 0
IsReadable aliases r = (a : Alias) × RefersTo aliases r a

id_to_name_of_key :
    (aliases : List Alias) (key : Text) (a : Alias)
    → find (has_key key) aliases ≡ some a
    → resolve_alias_id_to_name aliases (codes "@alias_" ++ key) ≡ b'@' ∷ name_or_slug a
unfolding resolve_alias_id_to_name strip_alias
id_to_name_of_key aliases key a h = rw h refl

name_to_id_of_name :
    (aliases : List Alias) (name : Text) (a : Alias)
    → trim name ≡ name
    → starts_with (codes "alias_") name ≡ false
    → find (goes_by name) aliases ≡ some a
    → resolve_alias_name_to_id aliases (b'@' ∷ name) ≡ codes "@alias_" ++ key_string a
unfolding resolve_alias_name_to_id
name_to_id_of_name aliases name a trimmed plain h =
    let plain' : starts_with (codes "alias_") (trim name) ≡ false = rw trimmed plain in
    let h' : find (goes_by (trim name)) aliases ≡ some a = rw trimmed h in
    rw (resolve_alias_name_to_id, plain', h') refl

module _ (aliases : List Alias) where
  reads_back :
      (r : Text)
      → IsReadable aliases r
      → IsPart (resolve_alias_id_to_name aliases r)
        × (resolve_alias_name_to_id aliases (clean_ref (resolve_alias_id_to_name aliases r)) ≡ r)
  reads_back r (a, h) =
      let name = name_or_slug a in
      let named : resolve_alias_id_to_name aliases r ≡ b'@' ∷ name =
        ap (resolve_alias_id_to_name aliases) h.reference
        ∙ id_to_name_of_key aliases (key_string a) a h.by_key in
      let back : resolve_alias_name_to_id aliases (b'@' ∷ name) ≡ r =
        name_to_id_of_name aliases name a h.trimmed.0 h.plain h.by_name ∙ sym h.reference in
      subst (λ t. IsPart t × (resolve_alias_name_to_id aliases (clean_ref t) ≡ r)) (sym named)
        (reference-IsPart name h.trimmed h.comma_free, back)

  names_are_parts :
      (refs : List Text)
      → All (IsReadable aliases) refs
      → All IsPart (map (resolve_alias_id_to_name aliases) refs)
  names_are_parts [] h = tt
  names_are_parts (r ∷ refs) (h, hs) = ((reads_back r h).0, names_are_parts refs hs)

  All-IsTrimmed : (ws : List Text) → All IsPart ws → All IsTrimmed ws
  All-IsTrimmed [] h = tt
  All-IsTrimmed (w ∷ ws) (p, ps) = ((p.trimmed, p.full), All-IsTrimmed ws ps)

  trim-names : (ws : List Text) → All IsPart ws → trim (join (codes ", ") ws) ≡ join (codes ", ") ws
  trim-names [] h = unfold trim join in refl
  trim-names (w ∷ ws) h = (join-IsTrimmed (codes ", ") w ws (All-IsTrimmed (w ∷ ws) h)).0

  map_back :
      (refs : List Text)
      → All (IsReadable aliases) refs
      → map
          (λ d. resolve_alias_name_to_id aliases (clean_ref d))
          (map (resolve_alias_id_to_name aliases) refs)
        ≡ refs
  map_back [] h = refl
  map_back (r ∷ refs) (h, hs) = ap₂ ◌∷◌ (reads_back r h).1 (map_back refs hs)

  domains_sent-names_of :
      (refs : List Text)
      → All (IsReadable aliases) refs
      → domains_sent aliases (trim (names_of aliases refs)) ≡ refs
  unfolding domains_sent
  domains_sent-names_of refs h =
      let names = map (resolve_alias_id_to_name aliases) refs in
      let parts = names_are_parts refs h in
      let f : Text → Text = λ d. resolve_alias_name_to_id aliases (clean_ref d) in
      ap (λ t. map f (parts_of t)) (trim-names names parts)
      ∙ ap (map f) (parts_of-join_spaced names parts)
      ∙ map_back refs h

opened-domains :
    (feature admin : Bool) (aliases : List Alias) (rules : List WebRule) (rule : WebRule)
    (id : Text) (before form : RuleForm)
    → find (λ r. text_eq r.id id) rules ≡ some rule
    → open_edit_rule_modal feature admin aliases rules id before ≡ some (id, form)
    → form.domains ≡ names_of aliases rule.domains
unfolding open_edit_rule_modal edit_form
opened-domains feature admin aliases rules rule id before form found opened =
    let opened' = rw (open_edit_rule_modal, found) at opened in
    let is_form : edit_form aliases rule before ≡ form = ground (arith, opened') in
    ap (λ g. g.domains) (sym is_form)

sent-payload :
    (feature admin : Bool) (aliases : List Alias) (id : Text) (form : RuleForm) (p : Payload)
    → submit_rule_form feature admin aliases (some id) form ≡ sent (put id p)
    → payload_of aliases (some id) form ≡ p
unfolding submit_rule_form request_of
sent-payload feature admin aliases id form p h =
    let is_put : put id (payload_of aliases (some id) form) ≡ put id p = ground (arith, h) in cc

sent-domains :
    (feature admin : Bool) (aliases : List Alias) (id : Text) (form : RuleForm) (p : Payload)
    → submit_rule_form feature admin aliases (some id) form ≡ sent (put id p)
    → domains_sent aliases (trim form.domains) ≡ p.domains
unfolding payload_of
sent-domains feature admin aliases id form p h =
    ap (λ q. q.domains) (sent-payload feature admin aliases id form p h)

-- A rule that is opened in the form and sent, with any comment and source, is sent with the domains
-- it had, in their order, if each of these is a reference to the first alias with its key that is
-- also the first with its name, and the name has no comma, no white space at its ends and does not
-- begin with "alias_".
pub open_edit_rule_modal-submit :
    (feature admin : Bool) (aliases : List Alias) (rules : List WebRule) (rule : WebRule)
    (id comment src : Text) (before form : RuleForm) (p : Payload)
    → find (λ r. text_eq r.id id) rules ≡ some rule
    → All (IsReadable aliases) rule.domains
    → open_edit_rule_modal feature admin aliases rules id before ≡ some (id, form)
    → submit_rule_form feature admin aliases
        (some id)
        (record form { comment = comment; src = src })
      ≡ sent (put id p)
    → p.domains ≡ rule.domains
open_edit_rule_modal-submit feature admin aliases rules rule id comment src before form p found
      readable opened h =
    let named = opened-domains feature admin aliases rules rule id before form found opened in
    let form' : RuleForm = record form { comment = comment; src = src } in
    sym (sent-domains feature admin aliases id form' p h)
    ∙ ap (λ t. domains_sent aliases (trim t)) named
    ∙ domains_sent-names_of aliases rule.domains readable
