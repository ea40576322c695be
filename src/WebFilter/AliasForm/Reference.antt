-- ===== src/WebFilter/AliasForm/Reference.antt =====
-- `submitAliasForm`: what the domain field of the rule's form holds after an alias was saved.
use networkat_cloud_web_app.Prelude.{◌≡◌, refl, none, some, List, [], ◌∷◌, arith}
use networkat_cloud_web_app.Prelude.Text.{Text, is_space, trim, join}
use networkat_cloud_web_app.Prelude.Text.Laws.{Lacks}
use networkat_cloud_web_app.Prelude.Text.Trimming.{IsTrimmed, join-IsTrimmed}
use networkat_cloud_web_app.Alias.Parts.{IsPart}
use networkat_cloud_web_app.AliasLists.Rows.{Entry, or_null}
use networkat_cloud_web_app.WebFilter.AliasForm.{
  AliasForm, AliasRequest, create_alias, patch_alias, put_items,
}

reference-IsTrimmed : (w : Text) → IsTrimmed w → IsTrimmed (b'@' ∷ w)
unfolding join
reference-IsTrimmed w h =
    join-IsTrimmed [] (b'@' ∷ []) (w ∷ []) ((unfold trim is_space in refl, refl), (h, tt))

pub reference-IsPart : (w : Text) → IsTrimmed w → Lacks b',' w → IsPart (b'@' ∷ w)
reference-IsPart w h free = record {
  trimmed = (reference-IsTrimmed w h).0;
  full = refl;
  comma_free = ground (arith, free);
}

-- The requests that are due: a new alias is created; a changed one takes its properties and then its
-- items.
pub data IsAliasPlan (form : AliasForm) (entries : List Entry) : List AliasRequest → Type 0 where
  creating :
      form.edited ≡ none
      → IsAliasPlan form entries
          (create_alias (trim form.name) form.type (or_null (trim form.comment)) entries ∷ [])
  changing :
      (alias_id : Text)
      → form.edited ≡ some alias_id
      → IsAliasPlan form entries (
          patch_alias alias_id (trim form.name) (trim form.comment)
          ∷ put_items alias_id entries
          ∷ [])
