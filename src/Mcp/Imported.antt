-- ===== src/Mcp/Imported.antt =====
-- crates/xiaozhi-manager/src/mcp_imported_merge.rs: the services imported from a market join the servers
-- that were configured by hand. JSON is read by a library, so a row holds its value; the url crate and
-- lower case are parameters. A set of URLs is a list, and the order of an object's fields means nothing.
pub mod Merging
mod Tests
use xiaozhi_esp32_server_rus.Common.{
  Bool, true, false, not, ◌&&◌, ◌||◌, ◌==◌, Option, none, some, List, [], ◌∷◌, ◌++◌, any,
  if◌then◌else◌,
}
use xiaozhi_esp32_server_rus.Common.Text.{
  Text, codes, text_eq, is_empty, trim, trim_end_by, contains,
}
use xiaozhi_esp32_server_rus.Common.Json.{
  Json, null, boolean, number, string, array, object, none_left, item, JsonFields, end, field,
}

-- The columns of a row that are read here; `none` when the JSON cannot be read.
pub record ConfigRow : Type 0 where
  pub name : Text
  pub json_data : Option Json
  pub enabled : Bool

abbrev field_of : JsonFields → Text → Option Json
field_of end key = none
field_of (field k v fs) key = let rest = field_of fs key in if text_eq k key then some v else rest

abbrev pub get : Json → Text → Option Json
get (object fs) key = field_of fs key
get null key = none
get (boolean b) key = none
get (number n) key = none
get (string s) key = none
get (array js) key = none

abbrev pub as_str : Option Json → Option Text
as_str none = none
as_str (some (string s)) = some s
as_str (some null) = none
as_str (some (boolean b)) = none
as_str (some (number n)) = none
as_str (some (array js)) = none
as_str (some (object fs)) = none

abbrev pub or_empty : Option Text → Text
or_empty none = []
or_empty (some t) = t

abbrev is_false : Option Json → Bool
is_false none = false
is_false (some (boolean b)) = not b
is_false (some null) = false
is_false (some (number n)) = false
is_false (some (string s)) = false
is_false (some (array js)) = false
is_false (some (object fs)) = false

-- `headers` and `allowed_tools`, which are kept when they are an object and an array with something in.
abbrev kept_object : Text → Option Json → JsonFields → JsonFields
kept_object key (some (object (field k v fs))) rest = field key (object (field k v fs)) rest
kept_object key (some (object end)) rest = rest
kept_object key none rest = rest
kept_object key (some null) rest = rest
kept_object key (some (boolean b)) rest = rest
kept_object key (some (number n)) rest = rest
kept_object key (some (string s)) rest = rest
kept_object key (some (array js)) rest = rest

abbrev kept_array : Text → Option Json → JsonFields → JsonFields
kept_array key (some (array (item j js))) rest = field key (array (item j js)) rest
kept_array key (some (array none_left)) rest = rest
kept_array key none rest = rest
kept_array key (some null) rest = rest
kept_array key (some (boolean b)) rest = rest
kept_array key (some (number n)) rest = rest
kept_array key (some (string s)) rest = rest
kept_array key (some (object fs)) rest = rest

abbrev pub contains_url : List Text → Text → Bool
contains_url urls url = any (text_eq url) urls

abbrev or_raw : Option Text → Text → Text
or_raw none raw = raw
or_raw (some url) raw = url

-- `rewritten` gives the URL with its path trimmed, when the url crate reads it.
unfoldable pub normalize_url : (Text → Option Text) → Text → Text
normalize_url rewritten raw =
    if is_empty (trim raw)
    then []
    else trim_end_by (λ c. c == 47) (or_raw (rewritten (trim raw)) (trim raw))

unfoldable pub normalize_imported_transport : (Text → Text) → Text → Text → Text
normalize_imported_transport lower transport url =
    let t = lower (trim transport) in
    if text_eq t (codes "sse")
    then codes "sse"
    else if text_eq t (codes "streamablehttp")
        || text_eq t (codes "streamable_http")
        || text_eq t (codes "streamable-http")
        || text_eq t (codes "http")
    then codes "streamablehttp"
    else if contains (codes "/sse") (lower url)
    then codes "sse"
    else if contains (codes "streamable") (lower url)
    then codes "streamablehttp"
    else t

abbrev pub imported_url : Json → Text
imported_url value = trim (or_empty (as_str (get value (codes "url"))))

unfoldable pub server_of : (Text → Text) → ConfigRow → Json → Json
server_of lower row value =
    let url = imported_url value in
    let transport =
      normalize_imported_transport lower (or_empty (as_str (get value (codes "transport")))) url in
    let tail =
      kept_object (codes "headers") (get value (codes "headers"))
        (kept_array (codes "allowed_tools") (get value (codes "allowed_tools")) end) in
    object (
      field (codes "url") (string url) (
        field (codes "name") (string row.name) (
          field (codes "type") (string transport) (
            field (codes "enabled") (boolean true) (
              field (codes "provider") (string (codes "mcp-market")) (
                field (codes "service_id")
                  (string (or_empty (as_str (get value (codes "service_id")))))
                  (if text_eq transport (codes "sse")
                    then field (codes "sse_url") (string url) tail
                    else tail)))))))

-- What a row comes to, given the URLs there are.
pub data Verdict : Type 0 where
  passed_over : Verdict
  conflict : Text → Verdict
  joins : Json → Text → Verdict

abbrev pub data_of : Option Json → Json
data_of none = object end
data_of (some j) = j

unfoldable pub judge_row : (Text → Option Text) → (Text → Text) → List Text → ConfigRow → Verdict
judge_row rewritten lower urls row =
    let value = data_of row.json_data in
    let norm = normalize_url rewritten (imported_url value) in
    let transport =
      normalize_imported_transport lower (or_empty (as_str (get value (codes "transport"))))
        (imported_url value) in
    if not row.enabled
    then passed_over
    else if is_false (get value (codes "enabled"))
    then passed_over
    else if is_empty norm
    then passed_over
    else if contains_url urls norm
    then conflict (codes "市场服务 " ++ row.name ++ codes " 因 URL 与人工配置冲突被跳过")
    else if not (text_eq transport (codes "sse"))
        && not (text_eq transport (codes "streamablehttp"))
    then passed_over
    else joins (server_of lower row value) norm

-- A verdict, and what `rest` says of the rows behind it for the URLs there are then.
unfoldable pub told :
    (List Text → List Json × List Text) → List Text → Verdict → List Json × List Text
told rest urls passed_over = rest urls
told rest urls (conflict w) = ((rest urls).0, w ∷ (rest urls).1)
told rest urls (joins server norm) = (server ∷ (rest (norm ∷ urls)).0, (rest (norm ∷ urls)).1)

-- The servers that join, in the order of the rows, and the warnings.
unfoldable pub merge_rows :
    (Text → Option Text) → (Text → Text) → List Text → List ConfigRow → List Json × List Text
merge_rows rewritten lower urls [] = ([], [])
merge_rows rewritten lower urls (row ∷ rows) =
    told (λ known. merge_rows rewritten lower known rows) urls (judge_row rewritten lower urls row)

abbrev pub url_of_key : (Text → Option Text) → Option Text → List Text
url_of_key rewritten none = []
url_of_key rewritten (some url) =
    let norm = normalize_url rewritten url in if is_empty norm then [] else norm ∷ []

abbrev server_urls : (Text → Option Text) → Json → List Text
server_urls rewritten server =
    url_of_key rewritten (as_str (get server (codes "url")))
    ++ url_of_key rewritten (as_str (get server (codes "sse_url")))

unfoldable pub existing_urls : (Text → Option Text) → List Json → List Text
existing_urls rewritten [] = []
existing_urls rewritten (server ∷ servers) =
    server_urls rewritten server ++ existing_urls rewritten servers

-- On the servers of `global`: the servers then, and the warnings.
unfoldable pub merge_servers :
    (Text → Option Text) → (Text → Text) → List Json → List ConfigRow → List Json × List Text
merge_servers rewritten lower servers rows =
    let (added, warnings) = merge_rows rewritten lower (existing_urls rewritten servers) rows in
    (servers ++ added, warnings)
