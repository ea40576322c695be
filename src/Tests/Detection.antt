-- ===== src/Tests/Detection.antt =====
-- What the windows of the intrusion detection share: the escape for HTML and the shared reads.
use networkat_cloud_web_app.Prelude.{◌≡◌, ◌≤◌, refl, false, true, some, [], ◌∷◌, List}
use networkat_cloud_web_app.Prelude.Text.{Text, codes}
use networkat_cloud_web_app.Ids.Escape.{replace_all, escape_text, esc}
use networkat_cloud_web_app.Ids.Escape.Safe.{IsSafe, esc-IsSafe}
use networkat_cloud_web_app.Ids.Cache.{Cache, cached, request_settled}
use networkat_cloud_web_app.Ids.Cache.Fresh.{
  CacheEvent, read, settled, cache_after_all, cached-fresh,
}

abbrev tag : Text
tag = codes "<a title='&'>"

escaped : escape_text tag ≡ codes "&lt;a title=&#039;&amp;&#039;&gt;"
unfolding escape_text replace_all
escaped = refl

esc-IsSafe_example : IsSafe (esc (some tag))
esc-IsSafe_example = esc-IsSafe (some tag)

abbrev no_reads : Cache
no_reads = record { entries = []; next = 0 }

abbrev one_read : Cache
one_read = record {
  entries = record { key = codes "7:settings"; at = 100; promise = 0 } ∷ [];
  next = 1;
}

abbrev reads : List CacheEvent
reads = read (codes "7:settings") 120 ∷ settled true ∷ []

cached-fresh_example :
    one_read.next
    ≤ (cached (codes "7:settings") 130 (cache_after_all reads (request_settled false one_read))).0
cached-fresh_example = cached-fresh one_read reads (codes "7:settings") 130
