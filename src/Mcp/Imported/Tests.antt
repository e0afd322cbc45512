-- ===== src/Mcp/Imported/Tests.antt =====
-- Runs of the merge of mcp_imported_merge.rs.
use xiaozhi_esp32_server_rus.Common.{
  ◌≡◌, refl, true, Option, none, some, List, [], ◌∷◌, ◌++◌, length, drop,
}
use xiaozhi_esp32_server_rus.Common.Text.{
  Text, codes, text_eq, is_whitespace, trim_start_by, trim_end_by, contains, starts_with,
}
use xiaozhi_esp32_server_rus.Common.Json.{Json, string, object, end, field}
use xiaozhi_esp32_server_rus.Mcp.Imported.{
  ConfigRow, normalize_url, normalize_imported_transport, server_of, judge_row, told, merge_rows,
  existing_urls, merge_servers,
}
use xiaozhi_esp32_server_rus.Mcp.Imported.Merging.{AllFresh, AllApart, merge-AllFresh}

-- No URL is read by the crate, and every letter is a small one.
abbrev unread : Text → Option Text
unread t = none

abbrev small : Text → Text
small t = t

abbrev server : Json
server = object (field (codes "url") (string (codes "http://a/sse/")) end)

abbrev row : Text → Text → ConfigRow
row name url = record {
  name = name;
  json_data = some (object (field (codes "url") (string url) end));
  enabled = true;
}

abbrev rows : List ConfigRow
rows =
    row (codes "a") (codes "http://a/sse")
    ∷ row (codes "b") (codes "http://b/sse")
    ∷ row (codes "c") (codes " http://b/sse/ ")
    ∷ row (codes "d") (codes "http://d")
    ∷ []

merge-AllFresh_example :
    ((merge_servers unread small (server ∷ []) rows).0
      ≡ (server ∷ []) ++ drop 1 (merge_servers unread small (server ∷ []) rows).0)
    × AllFresh unread
        (existing_urls unread (server ∷ []))
        (drop 1 (merge_servers unread small (server ∷ []) rows).0)
    × AllApart unread (server ∷ []) (drop 1 (merge_servers unread small (server ∷ []) rows).0)
merge-AllFresh_example = merge-AllFresh unread small (server ∷ []) rows

-- One service joins; the two that clash are told of, and the one of an unknown transport is not.
one_joins :
    (length (merge_servers unread small (server ∷ []) rows).0 ≡ 2)
    × (length (merge_servers unread small (server ∷ []) rows).1 ≡ 2)
unfolding merge_servers merge_rows told judge_row server_of existing_urls normalize_url
    normalize_imported_transport text_eq trim_end_by trim_start_by is_whitespace contains
    starts_with
one_joins = (refl, refl)
