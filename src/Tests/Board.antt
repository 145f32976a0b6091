-- ===== src/Tests/Board.antt =====
-- Concrete inputs for the theorems on the Trello client.
use tgbot_with_rest.Prelude.{
  ℕ, true, false, [], ◌∷◌, none, some, ◌≡◌, ◌↔◌, refl, if◌then◌else◌, is_empty, ◌==◌, arith,
}
use tgbot_with_rest.Text.{Text, utf8}
use tgbot_with_rest.Tests.Samples.{sample_qt}
use tgbot_with_rest.Json.{Boost, tokens, str, mark}
use tgbot_with_rest.Http.{Request, Reply, Transfer, Accepted, c_str, curle_ok}
use tgbot_with_rest.Trello.{Api, value, error, not_found_404, JiraCard, card_body}
use tgbot_with_rest.Trello.GetCard.{get_card, read_card}
use tgbot_with_rest.Trello.Body.{braced, card_body-tokens}
use tgbot_with_rest.Trello.Codes.{get_card_lem}
use tgbot_with_rest.Trello.Cache.{Fetched, Files, get_file, file_request, cache_file}
use tgbot_with_rest.Trello.Cache.Kept.{Kept, get_file-Kept}
use tgbot_with_rest.Trello.Cache.Rounds.{Asks, get_file-Asks}

abbrev pub sample_api : Api
sample_api = record { api_key = b'k' ∷ []; user_token = b't' ∷ []; apiprefix = b'h' ∷ b'/' ∷ [] }

-- A library for which every text but the empty one is an object with all keys, whose strings are "L".
abbrev pub sample_boost : Boost
sample_boost = record {
  Value = Unit {0};
  parse = λ s. if is_empty s then none else some tt;
  at = λ v key. some tt;
  to_string = λ v. some (b'L' ∷ []);
  to_bool = λ v. some false;
}

abbrev pub ok_reply : Reply
ok_reply = record { curl_code = 0; status = 200; answer = b'{' ∷ b'}' ∷ [] }

abbrev lost_reply : Reply
lost_reply = record { curl_code = 6; status = 0; answer = [] }

abbrev pub ok_transfer : Transfer
ok_transfer r = some ok_reply

-- The name `a"{` and the description of a line break.
card_body-tokens_example :
    tokens (card_body (b'a' ∷ b'"' ∷ b'{' ∷ []) (b'\n' ∷ []))
    ≡ some (
        mark b'{'
        ∷ str (utf8 "name")
        ∷ mark b':'
        ∷ str (braced (b'a' ∷ b'"' ∷ b'{' ∷ []))
        ∷ mark b','
        ∷ str (utf8 "desc")
        ∷ mark b':'
        ∷ str (braced (b'\n' ∷ []))
        ∷ mark b'}'
        ∷ [])
card_body-tokens_example =
    card_body-tokens (b'a' ∷ b'"' ∷ b'{' ∷ []) (b'\n' ∷ [])
      (omega arith, (omega arith, (omega arith, tt))) (omega arith, tt)

get_card_lem_example :
    ((get_card sample_api sample_qt sample_boost ok_transfer (b'1' ∷ [])
        ≡ some (error not_found_404))
      ↔ ((ok_reply.curl_code ≡ curle_ok) × (ok_reply.status ≡ 404)))
    × ((card : JiraCard)
        → (get_card sample_api sample_qt sample_boost ok_transfer (b'1' ∷ []) ≡ some (value card))
          ↔ (Accepted ok_reply
              × (v : Unit {0}) × (sample_boost.parse (c_str ok_reply.answer) ≡ some v)
              × (read_card sample_qt sample_boost (b'1' ∷ []) v ≡ some card)))
get_card_lem_example =
    get_card_lem sample_api sample_qt sample_boost ok_transfer (b'1' ∷ []) ok_reply refl

-- The host is found in the third round.
abbrev sample_net : Request → ℕ → Reply
sample_net r i = if i == 2 then ok_reply else lost_reply

abbrev no_files : Files
no_files name = none

abbrev same_sha1 : Text → Text
same_sha1 s = s

abbrev fetched : Fetched
fetched = get_file same_sha1 sample_api true sample_net (b'u' ∷ []) (b'.' ∷ b'c' ∷ []) true no_files

abbrev fetched_name : Text
fetched_name = cache_file same_sha1 (b'u' ∷ []) (b'.' ∷ b'c' ∷ [])

get_file-Kept_example : Kept fetched_name no_files fetched
get_file-Kept_example =
    get_file-Kept same_sha1 sample_api true sample_net (b'u' ∷ []) (b'.' ∷ b'c' ∷ []) true no_files

get_file-Asks_example : Asks (sample_net (file_request sample_api (b'u' ∷ []))) fetched
get_file-Asks_example =
    get_file-Asks same_sha1 sample_api true sample_net (b'u' ∷ []) (b'.' ∷ b'c' ∷ []) true no_files

fetched_requests : fetched.requests ≡ 3
unfolding get_file
fetched_requests = refl

get_file_returns : fetched.result ≡ value fetched_name
unfolding get_file
get_file_returns = refl
