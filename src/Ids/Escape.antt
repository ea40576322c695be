-- ===== src/Ids/Escape.antt =====
-- client/static/js/ids_common.js, `esc`: a text made safe for HTML by five replacements in a row.
pub mod Safe
use networkat_cloud_web_app.Prelude.{
  ℕ, ◌≡◌, Bool, Option, none, some, List, [], ◌∷◌, ◌++◌, ◌==◌, if◌then◌else◌,
}
use networkat_cloud_web_app.Prelude.Text.{Text, codes}

-- `.replace(/c/g, by)`
unfoldable pub replace_all : ℕ → Text → Text → Text
replace_all c by [] = []
replace_all c by (d ∷ s) = (if d == c then by else d ∷ []) ++ replace_all c by s

unfoldable pub escape_text : Text → Text
escape_text s = replace_all 39 (codes "&#039;") (
    replace_all b'"' (codes "&quot;") (
      replace_all b'>' (codes "&gt;")
        (replace_all b'<' (codes "&lt;") (replace_all b'&' (codes "&amp;") s))))

-- `null` and `undefined` are `none`.
unfoldable pub esc : Option Text → Text
esc none = []
esc (some s) = escape_text s
