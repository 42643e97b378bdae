-- ===== src/Headers.antt =====
-- The header edits that `ParsedContentEdit::apply_on_request` and `apply_on_response` of
-- mantalon-client/src/manifest.rs make with the same four loops.
pub mod Views
pub mod Rename
pub mod Orders
use mantalon.Base.{List, [], ◌∷◌, Option, none, some}
use mantalon.Http.{Http, first_value}

module _ (http : Http) where
  open http use {HeaderName, HeaderValue, HeaderMap, insert, append, remove}

  unfoldable pub remove_all : List HeaderName → HeaderMap → HeaderMap
  remove_all [] m = m
  remove_all (k ∷ ks) m = remove_all ks (remove m k)

  unfoldable pub insert_all : List (HeaderName × HeaderValue) → HeaderMap → HeaderMap
  insert_all [] m = m
  insert_all ((k, v) ∷ kvs) m = insert_all kvs (insert m k v)

  unfoldable pub append_all : List (HeaderName × HeaderValue) → HeaderMap → HeaderMap
  append_all [] m = m
  append_all ((k, v) ∷ kvs) m = append_all kvs (append m k v)

  -- `if let Some(value) = headers.remove(from) { headers.insert(to, value); }`
  unfoldable pub rename : HeaderName → HeaderName → HeaderMap → HeaderMap
  rename from to m = elim (first_value http m from) [
    | none ↦ remove m from
    | some value ↦ insert (remove m from) to value
  ]

  unfoldable pub rename_all : List (HeaderName × HeaderName) → HeaderMap → HeaderMap
  rename_all [] m = m
  rename_all ((from, to) ∷ pairs) m = rename_all pairs (rename from to m)

  unfoldable pub edit_headers :
      (removed : List HeaderName) (inserted appended : List (HeaderName × HeaderValue))
      (renamed : List (HeaderName × HeaderName))
      → HeaderMap
      → HeaderMap
  edit_headers removed inserted appended renamed m =
      rename_all renamed (append_all appended (insert_all inserted (remove_all removed m)))
