-- ===== src/Mcp/Imported/Merging.antt =====
-- What the merge of mcp_imported_merge.rs keeps apart.
use xiaozhi_esp32_server_rus.Common.{
  ◌≡◌, refl, ◌||◌, any, any-append, arith, Bool, true, false, Option, none, some, List, [], ◌∷◌,
  ◌++◌, sym, ◌∙◌, length, drop, if◌then◌else◌,
}
use xiaozhi_esp32_server_rus.Common.Text.{
  Text, codes, is_empty, text_eq, trim_start_by, trim_end_by,
}
use xiaozhi_esp32_server_rus.Common.Json.{Json}
use xiaozhi_esp32_server_rus.Mcp.Imported.{
  ConfigRow, contains_url, normalize_url, imported_url, get, as_str, or_empty, data_of, server_of,
  judge_row, Verdict, passed_over, conflict, joins, told, merge_rows, existing_urls, merge_servers,
  url_of_key,
}

-- The URL of a server, as it is compared.
abbrev url_of : (Text → Option Text) → Json → Text
url_of rewritten server = normalize_url rewritten (or_empty (as_str (get server (codes "url"))))

-- Each server has a URL, and one that neither is among these nor is an earlier server's.
abbrev pub AllFresh : (Text → Option Text) → List Text → List Json → Type 0
AllFresh rewritten urls [] = Unit {0}
AllFresh rewritten urls (s ∷ ss) =
    ((is_empty (url_of rewritten s) ≡ false) × (contains_url urls (url_of rewritten s) ≡ false))
    × AllFresh rewritten (url_of rewritten s ∷ urls) ss

-- What a verdict says of the URL of the server that joins.
abbrev IsFresh : (Text → Option Text) → List Text → Verdict → Type 0
IsFresh rewritten urls passed_over = Unit {0}
IsFresh rewritten urls (conflict w) = Unit {0}
IsFresh rewritten urls (joins server norm) =
    (norm ≡ url_of rewritten server) × (is_empty norm ≡ false) × (contains_url urls norm ≡ false)

server_url :
    (rewritten : Text → Option Text) (lower : Text → Text) (row : ConfigRow) (value : Json)
    → normalize_url rewritten (imported_url value) ≡ url_of rewritten (server_of lower row value)
unfolding server_of text_eq
server_url rewritten lower row value = refl

branches-IsFresh :
    (rewritten : Text → Option Text) (urls : List Text) (off disabled empty clash other : Bool)
    (w norm : Text) (server : Json)
    → (norm ≡ url_of rewritten server)
    → (is_empty norm ≡ empty)
    → (contains_url urls norm ≡ clash)
    → IsFresh rewritten urls (
        if off
        then passed_over
        else if disabled
        then passed_over
        else if empty
        then passed_over
        else if clash
        then conflict w
        else if other
        then passed_over
        else joins server norm)
branches-IsFresh rewritten urls true disabled empty clash other w norm server u e c = tt
branches-IsFresh rewritten urls false true empty clash other w norm server u e c = tt
branches-IsFresh rewritten urls false false true clash other w norm server u e c = tt
branches-IsFresh rewritten urls false false false true other w norm server u e c = tt
branches-IsFresh rewritten urls false false false false true w norm server u e c = tt
branches-IsFresh rewritten urls false false false false false w norm server u e c = (u, e, c)

judge-IsFresh :
    (rewritten : Text → Option Text) (lower : Text → Text) (urls : List Text) (row : ConfigRow)
    → IsFresh rewritten urls (judge_row rewritten lower urls row)
unfolding judge_row
judge-IsFresh rewritten lower urls row =
    branches-IsFresh rewritten urls _ _ _ _ _ _ _ _
      (server_url rewritten lower row (data_of row.json_data)) refl refl

drop-length : (xs ys : List Json) → drop (length xs) (xs ++ ys) ≡ ys
drop-length [] ys = refl
drop-length (x ∷ xs) ys = drop-length xs ys

told-AllFresh :
    (rewritten : Text → Option Text) (rest : List Text → List Json × List Text) (urls : List Text)
    (v : Verdict)
    → ((known : List Text) → AllFresh rewritten known (rest known).0)
    → IsFresh rewritten urls v
    → AllFresh rewritten urls (told rest urls v).0
unfolding told
told-AllFresh rewritten rest urls passed_over r h = r urls
told-AllFresh rewritten rest urls (conflict w) r h = r urls
told-AllFresh rewritten rest urls (joins server norm) r (u, e, c) =
    rw (sym u) ((e, c), r (norm ∷ urls))

rows-AllFresh :
    (rewritten : Text → Option Text) (lower : Text → Text) (urls : List Text)
    (rows : List ConfigRow)
    → AllFresh rewritten urls (merge_rows rewritten lower urls rows).0
unfolding merge_rows
rows-AllFresh rewritten lower urls [] = tt
rows-AllFresh rewritten lower urls (row ∷ rows) =
    told-AllFresh rewritten (λ known. merge_rows rewritten lower known rows) urls
      (judge_row rewritten lower urls row) (λ known. rows-AllFresh rewritten lower known rows)
      (judge-IsFresh rewritten lower urls row)

or_false : (a b : Bool) → (a || b) ≡ false → (a ≡ false) × (b ≡ false)
or_false true b h = absurd (ground arith)
or_false false b h = (refl, h)

none_of : (a b : Bool) → a ≡ false → b ≡ false → (a || b) ≡ false
none_of a b h k = rw h k

-- The URL under a key of a server configured by hand, as it is compared.
abbrev url_at : (Text → Option Text) → Json → Text → Text
url_at rewritten server key = normalize_url rewritten (or_empty (as_str (get server key)))

-- Whether a server configured by hand has the URL, under one of its two keys.
abbrev has_url : (Text → Option Text) → Text → Json → Bool
has_url rewritten url server =
    text_eq url (url_at rewritten server (codes "url"))
    || text_eq url (url_at rewritten server (codes "sse_url"))

-- No server configured by hand has the URL of one that joins.
abbrev pub AllApart : (Text → Option Text) → List Json → List Json → Type 0
AllApart rewritten servers [] = Unit {0}
AllApart rewritten servers (s ∷ ss) =
    (any (has_url rewritten (url_of rewritten s)) servers ≡ false) × AllApart rewritten servers ss

norm-apart :
    (norm url : Text)
    → is_empty url ≡ false
    → contains_url (if is_empty norm then [] else norm ∷ []) url ≡ false
    → text_eq url norm ≡ false
unfolding text_eq
norm-apart norm [] e h = ground arith
norm-apart [] (c ∷ url) e h = refl
norm-apart (d ∷ norm) (c ∷ url) e h = (or_false _ _ h).0

key-apart :
    (rewritten : Text → Option Text) (key : Option Text) (url : Text)
    → is_empty url ≡ false
    → contains_url (url_of_key rewritten key) url ≡ false
    → text_eq url (normalize_url rewritten (or_empty key)) ≡ false
unfolding text_eq normalize_url trim_start_by trim_end_by
key-apart rewritten none [] e h = ground arith
key-apart rewritten none (c ∷ url) e h = refl
key-apart rewritten (some raw) url e h = norm-apart (normalize_url rewritten raw) url e h

server-apart :
    (rewritten : Text → Option Text) (key key' : Option Text) (rest : List Text) (url : Text)
    → is_empty url ≡ false
    → contains_url ((url_of_key rewritten key ++ url_of_key rewritten key') ++ rest) url ≡ false
    → ((text_eq url (normalize_url rewritten (or_empty key))
          || text_eq url (normalize_url rewritten (or_empty key')))
        ≡ false)
      × (contains_url rest url ≡ false)
server-apart rewritten key key' rest url e h =
    let one = url_of_key rewritten key in
    let two = url_of_key rewritten key' in
    let (a, c) = or_false _ _ (sym (any-append (text_eq url) (one ++ two) rest) ∙ h) in
    let (x, y) = or_false _ _ (sym (any-append (text_eq url) one two) ∙ a) in
    (none_of _ _ (key-apart rewritten key url e x) (key-apart rewritten key' url e y), c)

existing-apart :
    (rewritten : Text → Option Text) (servers : List Json) (url : Text)
    → is_empty url ≡ false
    → contains_url (existing_urls rewritten servers) url ≡ false
    → any (has_url rewritten url) servers ≡ false
unfolding existing_urls
existing-apart rewritten [] url e h = refl
existing-apart rewritten (server ∷ servers) url e h =
    let (a, c) =
      server-apart rewritten (as_str (get server (codes "url")))
        (as_str (get server (codes "sse_url"))) (existing_urls rewritten servers) url e h in
    none_of _ _ a (existing-apart rewritten servers url e c)

-- What is fresh stays apart from what was there first.
fresh-AllApart :
    (rewritten : Text → Option Text) (servers : List Json) (urls : List Text) (ss : List Json)
    → ((url : Text)
        → contains_url urls url ≡ false
        → contains_url (existing_urls rewritten servers) url ≡ false)
    → AllFresh rewritten urls ss
    → AllApart rewritten servers ss
fresh-AllApart rewritten servers urls [] k h = tt
fresh-AllApart rewritten servers urls (s ∷ ss) k ((e, c), h) = (
  existing-apart rewritten servers (url_of rewritten s) e (k (url_of rewritten s) c),
  fresh-AllApart rewritten servers (url_of rewritten s ∷ urls) ss
      (λ url q. k url (or_false _ _ q).1) h,
)

-- The merge keeps the servers configured by hand in front. Those that join have a URL, none of them one
-- that a server configured by hand has as its `url` or `sse_url`, and all of them different.
pub merge-AllFresh :
    (rewritten : Text → Option Text) (lower : Text → Text) (servers : List Json)
    (rows : List ConfigRow)
    → ((merge_servers rewritten lower servers rows).0
        ≡ servers ++ drop (length servers) (merge_servers rewritten lower servers rows).0)
      × AllFresh rewritten
          (existing_urls rewritten servers)
          (drop (length servers) (merge_servers rewritten lower servers rows).0)
      × AllApart rewritten servers
          (drop (length servers) (merge_servers rewritten lower servers rows).0)
unfolding merge_servers
merge-AllFresh rewritten lower servers rows =
    let added = (merge_rows rewritten lower (existing_urls rewritten servers) rows).0 in
    let fresh = rows-AllFresh rewritten lower (existing_urls rewritten servers) rows in
    rw (drop-length servers added) (
      refl,
      fresh,
      fresh-AllApart rewritten servers (existing_urls rewritten servers) added (λ url c. c) fresh,
    )
