-- ===== src/Http.antt =====
-- Requests of src/trelloapi.cpp and src/jiraapi.cpp by curl, and the replies to them.
use tgbot_with_rest.Prelude.{
  ℕ, Bool, true, false, ◌||◌, List, [], ◌∷◌, Option, ltb, leb, ◌==◌, ◌<◌, if◌then◌else◌, ◌≡◌, ◌↔◌,
  ◌≤◌, arith,
}
use tgbot_with_rest.Text.{Text, starts_with}

pub data Method : Type 0 where
  http_get http_put http_post : Method

-- `CURLOPT_POSTFIELDS`, or the parts of a form: a name with contents, or a buffer with a file name.
pub data Part : Type 0 where
  contents : Text → Text → Part
  buffer : Text → Text → Text → Part

pub data Body : Type 0 where
  no_body : Body
  post_fields : Text → Body
  form : List Part → Body

pub record Request : Type 0 where
  pub method : Method
  pub url : Text
  pub headers : List Text
  pub body : Body

-- The code that `curl_easy_perform` returns, the status of the answer, and what was written to the
-- callback.
pub record Reply : Type 0 where
  pub curl_code : ℕ
  pub status : ℕ
  pub answer : Text

-- A request on a fresh handle; `none` if `curl_easy_init` yields no handle.
abbrev pub Transfer : Type 0
Transfer = Request → Option Reply

abbrev pub curle_ok : ℕ
curle_ok = 0

abbrev pub curle_couldnt_resolve_host : ℕ
curle_couldnt_resolve_host = 6

-- 0 if curl reports an error.
unfoldable pub status_code : Reply → ℕ
status_code r = if r.curl_code == curle_ok then r.status else 0

-- `status_code < 200 || status_code >= 300`.
unfoldable pub is_refused : Reply → Bool
unfolding status_code
is_refused r = ltb (status_code r) 200 || leb 300 (status_code r)

-- `c_str()` of an answer, as a parser sees it: up to the first null.
unfoldable pub c_str : Text → Text
c_str [] = []
c_str (c ∷ s) = elim (c == 0) [ true ↦ [] | false ↦ c ∷ c_str s ]

-- `find(part) != npos`.
unfoldable pub has_part : Text → Text → Bool
unfolding starts_with
has_part [] part = starts_with [] part
has_part (c ∷ s) part = starts_with (c ∷ s) part || has_part s part

-- An accepted answer came without an error of curl, and with a status of success.
abbrev pub Accepted : Reply → Type 0
Accepted r = (r.curl_code ≡ curle_ok) × (200 ≤ r.status) × (r.status < 300)

pub is_refused-Accepted : (r : Reply) → (is_refused r ≡ false) ↔ Accepted r
unfolding is_refused status_code
is_refused-Accepted r = ground arith
