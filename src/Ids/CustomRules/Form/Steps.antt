-- ===== src/Ids/CustomRules/Form/Steps.antt =====
-- The form of a rule over any clicks, choices and typing, from the one that "Add" opens.
use networkat_cloud_web_app.Prelude.{
  ◌≡◌, refl, Bool, true, some, List, [], ◌∷◌, All, Bool-cases, find, subst, inl, inr, Option-cases,
}
use networkat_cloud_web_app.Prelude.Text.{Text, codes, text_eq}
use networkat_cloud_web_app.Firewall.Order.Laws.{some-injective}
use networkat_cloud_web_app.Ids.CustomRules.Fields.{RuleKind, CustomRule}
use networkat_cloud_web_app.Ids.CustomRules.Form.{
  Part, new_form, set_kind, toggle_part, Pick, picked_in, Field, typed_in, apply_sugg, suggestions,
  suggested_form, Suggestion, site_suggestion, port_suggestion,
}
use networkat_cloud_web_app.Ids.CustomRules.Form.Tidy.{
  IsTidy, IsOffered, IsOpen, IsFree, toggle-IsTidy, kind-IsTidy, picked-IsTidy, typed-IsTidy,
}

-- The form that "Add" opens, and what is done in it. The chip of the part that the activity sets is
-- disabled.
pub data FormSteps : CustomRule → Type 0 where
  opened : FormSteps new_form
  choosing : {fs : CustomRule} (k : RuleKind) → FormSteps fs → FormSteps (set_kind k fs)
  narrowing :
      {fs : CustomRule} (k : Part) → IsFree fs.kind k → FormSteps fs → FormSteps (toggle_part k fs)
  picking :
      {fs : CustomRule} (v : Pick)
      → IsOffered fs v
      → FormSteps fs
      → FormSteps (record fs { r = picked_in v fs.r })
  typing :
      {fs : CustomRule} (f : Field) (v : Text)
      → IsOpen fs f
      → FormSteps fs
      → FormSteps (record fs { r = typed_in f v fs.r })
  suggested : {fs : CustomRule} (name : Text) → FormSteps fs → FormSteps (apply_sugg name fs)

IsTidySuggestion : Suggestion → Type 0
IsTidySuggestion t = IsTidy (suggested_form t true)

site_suggestion-IsTidy : (n sev site : Text) → IsTidySuggestion (site_suggestion n sev site)
unfolding suggested_form IsTidySuggestion
site_suggestion-IsTidy n sev site = (refl, tt, (refl, refl), (refl, refl), (refl, refl))

port_suggestion-IsTidy :
    (n sev proto port : Text) → IsTidySuggestion (port_suggestion n sev proto port)
unfolding suggested_form IsTidySuggestion
port_suggestion-IsTidy n sev proto port = (refl, refl, (refl, refl), refl, tt)

suggestions-IsTidy : All IsTidySuggestion suggestions
unfolding suggestions IsTidySuggestion suggested_form
suggestions-IsTidy = (
  site_suggestion-IsTidy (codes "Gambling sites") (codes "medium") (codes "bet365.com"),
  (
    site_suggestion-IsTidy (codes "Phishing login page") (codes "high") (codes "evil-login.com"),
    (
      site_suggestion-IsTidy (codes "Crypto mining pool") (codes "high") (codes "nanopool.org"),
      (
        site_suggestion-IsTidy (codes "File sharing upload") (codes "low") (codes "wetransfer.com"),
        (
          port_suggestion-IsTidy (codes "Remote desktop to the internet") (codes "high")
              (codes "tcp") (codes "3389"),
          (
            port_suggestion-IsTidy (codes "SSH to the internet") (codes "medium") (codes "tcp")
                (codes "22"),
            (
              site_suggestion-IsTidy (codes "TeamViewer or AnyDesk") (codes "medium")
                  (codes "teamviewer.com"),
              (
                port_suggestion-IsTidy (codes "Tor network") (codes "high") (codes "tcp")
                    (codes "9001"),
                (
                  port_suggestion-IsTidy (codes "Unapproved VPN") (codes "medium") (codes "udp")
                      (codes "1194"),
                  (
                    (refl, refl, refl, refl, (refl, refl)),
                    (
                      port_suggestion-IsTidy (codes "Outside DNS server") (codes "medium")
                          (codes "udp") (codes "53"),
                      (
                        port_suggestion-IsTidy (codes "Direct mail sending") (codes "medium")
                            (codes "tcp") (codes "25"),
                        tt,
                      ),
                    ),
                  ),
                ),
              ),
            ),
          ),
        ),
      ),
    ),
  ),
)

found-All :
    (p : Suggestion → Bool) (P : Suggestion → Type 0) (ts : List Suggestion) (t : Suggestion)
    → All P ts
    → find p ts ≡ some t
    → P t
found-All p P [] t h e = cc
found-All p P (x ∷ xs) t (hx, hxs) e = elim (Bool-cases (p x)) [
  | inl here ↦ subst P (some-injective (rw here at e)) hx
  | inr later ↦ found-All p P xs t hxs (rw later at e)
]

suggested-IsTidy : (name : Text) (fs : CustomRule) → IsTidy fs → IsTidy (apply_sugg name fs)
unfolding apply_sugg suggested_form IsTidySuggestion suggestions text_eq
suggested-IsTidy name fs h = elim (Option-cases (find (λ t. text_eq t.name name) suggestions)) [
  | inl no_name ↦ rw no_name h
  | inr (t, there) ↦
      rw there (
        found-All (λ u. text_eq u.name name) IsTidySuggestion suggestions t suggestions-IsTidy
          there)
]

-- In a form opened by "Add", after any choices, chips, menus, suggestions and typing: the part that
-- the activity sets is not among the optional ones; a part that is off has blank fields, with no
-- destination and any protocol; and a part that is on has its side or a place of destination.
pub FormSteps-IsTidy : (fs : CustomRule) → FormSteps fs → IsTidy fs
FormSteps-IsTidy fs opened = (refl, tt, (refl, refl), (refl, refl), (refl, refl))
FormSteps-IsTidy fs (choosing {fs = g} k h) =
    kind-IsTidy k g.r g.kind g.more.from g.more.to g.more.port g.more.site (FormSteps-IsTidy g h)
FormSteps-IsTidy fs (narrowing {fs = g} k free h) =
    toggle-IsTidy k g.r g.kind g.more.from g.more.to g.more.port g.more.site free
      (FormSteps-IsTidy g h)
FormSteps-IsTidy fs (picking {fs = g} v e h) = picked-IsTidy v g e (FormSteps-IsTidy g h)
FormSteps-IsTidy fs (typing {fs = g} f v e h) = typed-IsTidy f v g e (FormSteps-IsTidy g h)
FormSteps-IsTidy fs (suggested {fs = g} name h) = suggested-IsTidy name g (FormSteps-IsTidy g h)
