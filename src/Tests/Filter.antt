-- ===== src/Tests/Filter.antt =====
-- The forms of the page of the web filter.
use networkat_cloud_web_app.Prelude.{◌≡◌, refl, true, false, some, none, [], ◌∷◌}
use networkat_cloud_web_app.Prelude.Text.{join, codes, trim, split_on, text_eq, to_lower, lower}
use networkat_cloud_web_app.Firewall.AliasEntry.{domain_entry}
use networkat_cloud_web_app.Alias.{
  Alias, number, name_or_slug, text_string, is_named, strip_alias, parts_of,
}
use networkat_cloud_web_app.AliasLists.Requests.{Answer, accepted}
use networkat_cloud_web_app.WebFilter.References.{
  resolve_alias_id_to_name, resolve_alias_name_to_id, validate_web_filter_source, check_domains,
  validate_web_filter_domains,
}
use networkat_cloud_web_app.WebFilter.RuleForm.{
  put, WebRule, Payload, edit_form, open_edit_rule_modal, custom, RuleForm, Request, post, sent,
  validate_web_filter_comment, src_marks, domains_marks, order_marks, form_marks, src_sent,
  domains_sent, order_sent, payload_of, request_of, submit_rule_form, left_out, place,
}
use networkat_cloud_web_app.WebFilter.RuleForm.Reopen.{RefersTo, open_edit_rule_modal-submit}
use networkat_cloud_web_app.WebFilter.AliasForm.{AliasForm, AliasRequest, create_alias, AliasSaved}

abbrev social : Alias
social = record {
  id = number 0;
  slug = some (codes "social");
  name = none;
  type = codes "web_domain";
}

abbrev rule_form : RuleForm
rule_form = record {
  comment = codes " no feeds ";
  src = [];
  domains = codes "@social";
  order_choice = custom;
  custom_order = codes "2";
}

abbrev rule_request : Request
rule_request = post (record {
  comment = some (codes "no feeds");
  src = none;
  domains = codes "@alias_social" ∷ [];
  enabled = true;
  order = place 2;
})

abbrev video_form : AliasForm
video_form = record {
  edited = none;
  type = codes "web_domain";
  name = codes "video ";
  comment = [];
  rows = record { value = codes "*.tube.com "; comment = codes "clips" } ∷ [];
}

abbrev all_taken : AliasRequest → Answer
all_taken q = accepted

abbrev video_saved : AliasSaved
video_saved = record {
  saved = record {
    requests =
        create_alias (codes "video") (codes "web_domain") none (
          record { type = domain_entry; value = codes "*.tube.com"; comment = some (codes "clips") }
          ∷ [])
        ∷ [];
    success = true;
  };
  domains = codes "@social, @video";
}

abbrev social_rule : WebRule
social_rule = record {
  id = codes "r1";
  comment = none;
  src = none;
  domains = codes "@alias_social" ∷ [];
}

abbrev opened_form : RuleForm
opened_form = record rule_form { comment = []; src = []; domains = codes "@social" }

abbrev sent_again : Payload
sent_again = record {
  comment = some (codes "still");
  src = none;
  domains = codes "@alias_social" ∷ [];
  enabled = true;
  order = left_out;
}

social_opened :
    open_edit_rule_modal true false (social ∷ []) (social_rule ∷ []) (codes "r1") rule_form
    ≡ some (codes "r1", opened_form)
unfolding open_edit_rule_modal edit_form resolve_alias_id_to_name strip_alias name_or_slug
    text_string join text_eq
social_opened = refl

social_sent :
    submit_rule_form true false
      (social ∷ [])
      (some (codes "r1"))
      (record opened_form { comment = codes "still"; src = [] })
    ≡ sent (put (codes "r1") sent_again)
unfolding submit_rule_form form_marks validate_web_filter_comment src_marks domains_marks
    order_marks payload_of src_sent domains_sent order_sent request_of validate_web_filter_source
    validate_web_filter_domains check_domains resolve_alias_name_to_id parts_of strip_alias is_named
    trim split_on to_lower lower text_eq text_string
social_sent = refl

social-RefersTo : RefersTo (social ∷ []) (codes "@alias_social") social
unfolding name_or_slug text_string text_eq trim
social-RefersTo = record {
  reference = refl;
  by_key = refl;
  by_name = refl;
  trimmed = (refl, refl);
  comma_free = refl;
  plain = refl;
}

open_edit_rule_modal-submit_example : sent_again.domains ≡ social_rule.domains
open_edit_rule_modal-submit_example =
    open_edit_rule_modal-submit true false (social ∷ []) (social_rule ∷ []) social_rule (codes "r1")
      (codes "still") [] rule_form opened_form sent_again (unfold text_eq in refl)
      ((social, social-RefersTo), tt) social_opened social_sent
