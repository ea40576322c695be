-- ===== src/Firewall/Bulk/Switched.antt =====
-- The switch of a rule, next to what the page remembers of the rule.
use networkat_cloud_web_app.Prelude.{
  ℕ, ◌≡◌, refl, sym, ap, Bool, true, false, not, some, List, [], ◌∷◌, ◌==◌, find, Bool-cases, inl,
  inr,
}
use networkat_cloud_web_app.Firewall.Order.Laws.{some-injective}
use networkat_cloud_web_app.Firewall.Order.{Rule, has_rule_id}
use networkat_cloud_web_app.Firewall.Bulk.{
  SwitchAnswer, switched, failed, Switch, set_enabled, toggle_started, toggle_answered, toggle_rule,
}

set_enabled-find :
    (k : ℕ) (state : Bool) (rs : List Rule) (r : Rule)
    → find (has_rule_id k) (set_enabled k state rs) ≡ some r
    → r.enabled ≡ state
unfolding set_enabled
set_enabled-find k state [] r h = cc
set_enabled-find k state (x ∷ rs) r h = elim (Bool-cases (x.id == k)) [
  | inl same ↦
      let found : record x { enabled = state } ≡ r =
        some-injective (rw (set_enabled, same, find, same) at h) in
      ap (λ q. q.enabled) (sym found)
  | inr other ↦ set_enabled-find k state rs r (rw (set_enabled, other, find, other) at h)
]

-- The checkbox of the rule shows what the page remembers of it.
abbrev pub Shows : ℕ → Bool → List Rule → Type 0
Shows k checked rules = (r : Rule) → find (has_rule_id k) rules ≡ some r → r.enabled ≡ checked

-- If the checkbox showed the remembered state before the click, it does so again after the handler,
-- whatever the plan and the answer are, and it can be clicked and has no spinner if that was so.
pub toggle_rule-Shows :
    (feature admin : Bool) (k : ℕ) (answer : SwitchAnswer) (s : Switch)
    → Shows k (not s.checked) s.rules
    → (s.disabled ≡ false) × (s.spinner ≡ false)
    → let t = toggle_rule feature admin k answer s in
      Shows k t.checked t.rules × (t.disabled ≡ false) × (t.spinner ≡ false)
unfolding toggle_rule toggle_started toggle_answered
toggle_rule-Shows true admin k (switched state) s before idle =
    (set_enabled-find k state s.rules, refl, refl)
toggle_rule-Shows true admin k failed s before idle = (before, refl, refl)
toggle_rule-Shows false true k (switched state) s before idle =
    (set_enabled-find k state s.rules, refl, refl)
toggle_rule-Shows false true k failed s before idle = (before, refl, refl)
toggle_rule-Shows false false k answer s before (d, n) = (before, d, n)
