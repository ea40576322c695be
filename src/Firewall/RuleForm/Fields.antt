-- ===== src/Firewall/RuleForm/Fields.antt =====
-- `submitAddRule`: the fields of a form without marks, as they are sent.
use networkat_cloud_web_app.Prelude.{
  ◌≤◌, ◌≡◌, refl, sym, ◌∙◌, ap, true, false, Option, none, some, List, [], ◌∷◌, ◌++◌, is_nil, ◌>>=◌,
  get_or, ◌≢◌, Result, ok, err, arith, length, inl, inr, ◌⊎◌, Bool-cases,
}
use networkat_cloud_web_app.Prelude.Text.{Text, codes, trim, join, split_on}
use networkat_cloud_web_app.Prelude.Text.Laws.{not-nil_of_trim}
use networkat_cloud_web_app.Prelude.Text.Trimming.{trim-trim}
use networkat_cloud_web_app.Alias.{Alias, resolve_alias_names_to_ids, parts_of}
use networkat_cloud_web_app.Firewall.Addresses.{
  AddressError, validate_address_input, validate_comment_input, check_parts, check_addresses,
}
use networkat_cloud_web_app.Firewall.Addresses.Stable.{
  check_alias-eq, validate_address_input-stable,
}
use networkat_cloud_web_app.Firewall.Ports.{PortError, validate_port_input}
use networkat_cloud_web_app.Firewall.Ports.Grammar.{IsPortList, validate_port_input_iff}
use networkat_cloud_web_app.Firewall.RuleForm.{
  Field, src_port_input, dst_port_input, has_ports, comment_errors, address_errors, port_errors,
  ports_errors, or_null, normalized_or, address_sent, port_sent,
}

-- The address that is sent for a field: none for a field without parts, or the id form of a normal
-- form that validates to itself.
abbrev pub SendsAddress : List Alias → Text → Option Text → Type 0
SendsAddress lists value out =
    ((parts_of value ≡ []) × (out ≡ none))
    ⊎ ((t : Text) × (validate_address_input lists value ≡ ok (some t))
        × (validate_address_input lists t ≡ ok (some t))
        × (out ≡ or_null (resolve_alias_names_to_ids lists t)))

-- The ports that are sent: none for a blank field, or a list of ports as it was typed, where the
-- protocol has ports.
abbrev pub SendsPorts : Text → Text → Option Text → Type 0
SendsPorts protocol value out =
    ((value ≡ []) × (out ≡ none))
    ⊎ ((has_ports protocol ≡ true) × (out ≡ some value) × IsPortList value)

pub append-nil_parts {ℓ} :
    {A : Type ℓ} (xs ys : List A) → is_nil (xs ++ ys) ≡ true → (xs ≡ []) × (ys ≡ [])
append-nil_parts [] [] h = (refl, refl)
append-nil_parts [] (y ∷ ys) h = cc
append-nil_parts (x ∷ xs) ys h = cc

resolve-no_parts :
    (lists : List Alias) (value : Text)
    → parts_of value ≡ []
    → or_null (resolve_alias_names_to_ids lists value) ≡ none
unfolding resolve_alias_names_to_ids join
resolve-no_parts lists [] h = refl
resolve-no_parts lists (c ∷ s) h = rw h refl

pub nil_of_is_nil {ℓ} : {A : Type ℓ} (xs : List A) → is_nil xs ≡ true → xs ≡ []
nil_of_is_nil [] h = refl
nil_of_is_nil (x ∷ xs) h = cc

check_parts-normal : (lists : List Alias) (parts : List Text) → check_parts lists parts ≢ ok none
unfolding check_parts
check_parts-normal lists parts h = ground (
  arith,
  check_alias-eq lists (get_or parts 0 []) none,
  check_addresses_normal (check_addresses [] parts),
)
  where
    check_addresses_normal :
        (m : Result AddressError (List Text))
        → (m >>= λ ws. ok (some (join (codes ", ") ws))) ≢ ok none
    check_addresses_normal (ok ws) e = cc
    check_addresses_normal (err x) e = cc

parts_of_nil : (s : Text) → s ≡ [] → parts_of s ≡ []
unfolding parts_of split_on trim
parts_of_nil s e = rw e refl

validate_address_input-no_parts :
    (lists : List Alias) (value : Text)
    → validate_address_input lists value ≡ ok none
    → parts_of (trim value) ≡ []
unfolding validate_address_input
validate_address_input-no_parts lists value h = elim (Bool-cases (is_nil (parts_of (trim value)))) [
  | inl none_there ↦ nil_of_is_nil (parts_of (trim value)) none_there
  | inr some_there ↦ elim (Bool-cases (is_nil (trim value))) [
    | inl blank ↦ parts_of_nil (trim value) (nil_of_is_nil (trim value) blank)
    | inr full ↦ absurd (
        check_parts-normal lists (parts_of (trim value))
          (ground (arith, not-nil_of_trim value full)))
  ]
]

pub address_sent-SendsAddress :
    (lists : List Alias) (field : Field) (s : Text)
    → address_errors field (validate_address_input lists (trim s)) ≡ []
    → SendsAddress lists (trim s) (address_sent lists (trim s))
unfolding address_sent address_errors normalized_or
address_sent-SendsAddress lists field s h = go (validate_address_input lists (trim s)) refl h
  where
    go :
        (r : Result AddressError (Option Text))
        → validate_address_input lists (trim s) ≡ r
        → address_errors field r ≡ []
        → SendsAddress lists
            (trim s)
            (or_null (resolve_alias_names_to_ids lists (normalized_or r (trim s))))
    go (ok none) e h =
        let no_parts : parts_of (trim s) ≡ [] =
          ap parts_of (sym (trim-trim s)) ∙ validate_address_input-no_parts lists (trim s) e in
        inl (no_parts, resolve-no_parts lists (trim s) no_parts)
    go (ok (some t)) e h = inr (t, e, validate_address_input-stable lists (trim s) t e, refl)
    go (err x) e h = cc

no_port_sent : (protocol t : Text) → has_ports protocol ≡ false → port_sent protocol t ≡ none
unfolding port_sent
no_port_sent protocol t e = rw e refl

pub comment_fits : (value : Text) → comment_errors value ≡ [] → length value ≤ 200
unfolding comment_errors validate_comment_input
comment_fits value h = ground arith

port_sent-SendsPorts :
    (field : Field) (protocol s : Text)
    → has_ports protocol ≡ true
    → port_errors field (validate_port_input (trim s)) ≡ []
    → SendsPorts protocol (trim s) (port_sent protocol (trim s))
unfolding port_sent port_errors
port_sent-SendsPorts field protocol s h k = rw h (go (trim s) (trim-trim s) k)
  where
    go :
        (t : Text)
        → trim t ≡ t
        → port_errors field (validate_port_input t) ≡ []
        → ((t ≡ []) × (or_null t ≡ none)) ⊎ ((true ≡ true) × (or_null t ≡ some t) × IsPortList t)
    go [] e k = inl (refl, refl)
    go (c ∷ t) e k =
        let full : is_nil (trim (c ∷ t)) ≡ false = ap is_nil e in
        inr (
          refl,
          refl,
          (validate_port_input_iff (c ∷ t) full).0 (valid (validate_port_input (c ∷ t)) k),
        )
      where
        valid : (r : Result PortError (Unit {0})) → port_errors field r ≡ [] → r ≡ ok tt
        valid (ok tt) h = refl
        valid (err x) h = cc

pub ports_errors-SendsPorts :
    (protocol src dst : Text)
    → ports_errors protocol (trim src) (trim dst) ≡ []
    → SendsPorts protocol (trim src) (port_sent protocol (trim src))
      × SendsPorts protocol (trim dst) (port_sent protocol (trim dst))
unfolding ports_errors
ports_errors-SendsPorts protocol src dst h = elim (Bool-cases (has_ports protocol)) [
  | inl ports ↦
      let both : (port_errors src_port_input (validate_port_input (trim src))
            ++ port_errors dst_port_input (validate_port_input (trim dst)))
          ≡ [] =
        rw ports at h in
      let (h₁, h₂) = append-nil_parts _ _ (ap is_nil both) in
      (
        port_sent-SendsPorts src_port_input protocol src ports h₁,
        port_sent-SendsPorts dst_port_input protocol dst ports h₂,
      )
  | inr no_ports ↦ (
    without protocol (trim src) no_ports (ground arith),
    without protocol (trim dst) no_ports (ground arith),
  )
]
  where
    without :
        (protocol t : Text)
        → has_ports protocol ≡ false
        → is_nil t ≡ true
        → SendsPorts protocol t (port_sent protocol t)
    without protocol t e blank = inl (nil_of_is_nil t blank, no_port_sent protocol t e)
