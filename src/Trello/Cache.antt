-- ===== src/Trello/Cache.antt =====
-- `get_file` and `get_image_file` of src/trelloapi.cpp: files are fetched into the directory `cache`.
pub mod Kept
pub mod Rounds
pub mod Names
use tgbot_with_rest.Prelude.{
  ℕ, zero, suc, ◌+◌, Bool, true, false, ◌&&◌, not, [], ◌∷◌, ◌++◌, Option, none, some, ◌==◌, ℤ,
  if◌then◌else◌,
}
use tgbot_with_rest.Text.{Text, utf8, text_eq}
use tgbot_with_rest.Numbers.{itoa}
use tgbot_with_rest.Http.{
  Request, http_get, no_body, Reply, status_code, is_refused, curle_couldnt_resolve_host, has_part,
}
use tgbot_with_rest.Trello.{Api, TrelloResult, value, error, unknown, request_failed}

-- The files by their names.
abbrev pub Files : Type 0
Files = Text → Option Text

abbrev pub exists : Files → Text → Bool
exists files name = elim (files name) [ none ↦ false | some t ↦ true ]

abbrev pub remove_file : Text → Files → Files
remove_file name files n = if text_eq n name then none else files n

abbrev pub write_file : Text → Text → Files → Files
write_file name t files n = if text_eq n name then some t else files n

-- `std::filesystem::rename`, which replaces a file of the new name.
abbrev pub rename_file : Text → Text → Files → Files
rename_file from to files = remove_file from (λ n. if text_eq n to then files from else files n)

-- `cache_path_/sha1(url)extension`.
unfoldable pub cache_file : (Text → Text) → Text → Text → Text
unfolding utf8
cache_file sha1 url extension = utf8 "cache" ++ (b'/' ∷ (sha1 url ++ extension))

unfoldable pub tmp_file : Text → Text
unfolding utf8
tmp_file name = name ++ utf8 ".tmp"

unfoldable pub file_request : Api → Text → Request
unfolding utf8 has_part
file_request api url = record {
  method = http_get;
  url = if has_part url (utf8 "://") then url else utf8 "https://api.trello.com/" ++ url;
  headers =
      (utf8 "Authorization: OAuth oauth_consumer_key=\""
        ++ api.api_key
        ++ utf8 "\", oauth_token=\""
        ++ api.user_token
        ++ utf8 "\"")
      ∷ [];
  body = no_body;
}

-- The loop of requests from the round `i` on, with at most `more` rounds behind it: the last reply,
-- what was written to the temporary file, and the number of rounds. `net i` answers round `i`.
unfoldable pub attempts : (ℕ → Reply) → ℕ → ℕ → Text → Reply × Text × ℕ
attempts net zero i written = (net i, written ++ (net i).answer, suc i)
attempts net (suc more) i written = elim ((net i).curl_code == curle_couldnt_resolve_host) [
  | true ↦ attempts net more (suc i) (written ++ (net i).answer)
  | false ↦ (net i, written ++ (net i).answer, suc i)
]

-- What a call did: its result, the files, and the number of requests.
pub record Fetched : Type 0 where
  pub result : TrelloResult Text
  pub files : Files
  pub requests : ℕ

-- Behind the loop.
unfoldable pub keep_fetched : Text → Files → Reply × Text × ℕ → Fetched
unfolding is_refused tmp_file
keep_fetched name files (reply, written, n) =
    let files' = write_file (tmp_file name) written files in
    if is_refused reply
    then record {
      result = error request_failed;
      files = remove_file (tmp_file name) files';
      requests = n;
    }
    else record {
      result = value name;
      files = rename_file (tmp_file name) name (remove_file name files');
      requests = n;
    }

-- Without a file in the cache; `init` is whether curl gives a handle.
unfoldable pub fetch : Bool → (ℕ → Reply) → Text → Files → Fetched
unfolding keep_fetched attempts
fetch init net name files =
    if init
    then keep_fetched name files (attempts net 9 0 [])
    else record { result = error unknown; files = files; requests = 0 }

unfoldable pub get_file :
    (Text → Text) → Api → Bool → (Request → ℕ → Reply) → Text → Text → Bool → Files → Fetched
unfolding cache_file fetch file_request
get_file sha1 api init net url extension force files =
    let name = cache_file sha1 url extension in
    let transfers = net (file_request api url) in
    if exists files name
    then (if force
        then fetch init transfers name (remove_file name files)
        else record { result = value name; files = files; requests = 0 })
    else fetch init transfers name files

-- `strformat("&width=%d", …)` and its like.
abbrev option_field : Text → Option ℤ → Text
option_field key none = []
option_field key (some n) = key ++ itoa n

-- `escape` is `curl_easy_escape`.
unfoldable pub get_image_file :
    (Text → Text)
    → (Text → Option Text)
    → Api
    → Bool
    → (Request → ℕ → Reply)
    → Text
    → Option ℤ
    → Option ℤ
    → Bool
    → Files
    → Fetched
unfolding get_file utf8
get_image_file sha1 escape api init net url width height force files =
    let failed : Fetched = record { result = error unknown; files = files; requests = 0 } in
    if init
    then elim (escape url) [
      | none ↦ failed
      | some encoded ↦
          get_file sha1 api init net
            (encoded
              ++ option_field (utf8 "&width=") width
              ++ option_field (utf8 "&height=") height)
            (utf8 ".bin") force files
    ]
    else failed
