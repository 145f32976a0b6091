-- ===== src/Trello/Cache/Kept.antt =====
-- What `get_file` of src/trelloapi.cpp keeps in its cache.
use tgbot_with_rest.Prelude.{
  ℕ, Bool, true, false, [], none, some, ◌≡◌, ◌≢◌, refl, arith, if◌then◌else◌, length, length-append,
  Bool-cases, inl, inr, ap, sym, ◌∙◌,
}
use tgbot_with_rest.Text.{Text, utf8, text_eq, text_eq_iff}
use tgbot_with_rest.Http.{Request, Reply, is_refused}
use tgbot_with_rest.Trello.{Api, value}
use tgbot_with_rest.Trello.Cache.{
  Files, exists, remove_file, write_file, rename_file, cache_file, tmp_file, file_request, attempts,
  Fetched, keep_fetched, fetch, get_file,
}

text_eq_refl : (s : Text) → text_eq s s ≡ true
text_eq_refl s = (text_eq_iff s s).1 refl

text_eq_other : (s t : Text) → s ≢ t → text_eq s t ≡ false
text_eq_other s t h = elim (Bool-cases (text_eq s t)) [
  | inl e ↦ elim (h ((text_eq_iff s t).0 e)) [ ]
  | inr e ↦ e
]

tmp_other : (name : Text) → name ≢ tmp_file name
unfolding tmp_file utf8
tmp_other name h = omega (arith, length-append name (utf8 ".tmp"), ap length h)

exists_some : (files : Files) (name t : Text) → files name ≡ some t → exists files name ≡ true
exists_some files name t h = rw (exists, h) refl

-- What a call that fetches does to the files: a file that is returned is there; the temporary file
-- is gone, unless nothing was asked for; all others are as before.
abbrev pub Kept : Text → Files → Fetched → Type 0
Kept name files got =
    ((n : Text) → got.result ≡ value n → (n ≡ name) × (exists got.files name ≡ true))
    × (files (tmp_file name) ≡ none → got.files (tmp_file name) ≡ none)
    × ((n : Text) → n ≢ name → n ≢ tmp_file name → got.files n ≡ files n)

keep_fetched-Kept :
    (name : Text) (files : Files) (r : Reply × Text × ℕ)
    → Kept name files (keep_fetched name files r)
unfolding keep_fetched
keep_fetched-Kept name files (reply, written, n) =
    let tmp = tmp_file name in
    let same : text_eq tmp tmp ≡ true = text_eq_refl tmp in
    let name_same : text_eq name name ≡ true = text_eq_refl name in
    let other : text_eq name tmp ≡ false = text_eq_other name tmp (tmp_other name) in
    let other' : text_eq tmp name ≡ false = text_eq_other tmp name (λ h. tmp_other name (sym h)) in
    elim (Bool-cases (is_refused reply)) [
      | inl e ↦ rw e (
        λ m h. ground arith,
        λ h. rw same refl,
        λ m p q. let x = text_eq_other m tmp q in rw x refl,
      )
      | inr e ↦ rw e (
        λ m h. (
          ground arith,
          exists_some (rename_file tmp name (remove_file name (write_file tmp written files))) name
              written (rw (other, name_same, other', same) refl),
        ),
        λ h. rw same refl,
        λ m p q. let x = text_eq_other m tmp q in let y = text_eq_other m name p in rw (x, y) refl,
      )
    ]

fetch-Kept :
    (init : Bool) (net : ℕ → Reply) (name : Text) (files : Files)
    → Kept name files (fetch init net name files)
unfolding fetch
fetch-Kept true net name files = keep_fetched-Kept name files (attempts net 9 0 [])
fetch-Kept false net name files = (λ n h. ground arith, λ h. h, λ n p q. refl)

removed-Kept :
    (name : Text) (files : Files) (got : Fetched)
    → Kept name (remove_file name files) got
    → Kept name files got
removed-Kept name files got (a, b, c) = (
  a,
  λ h. b (rw (text_eq_other (tmp_file name) name (λ p. tmp_other name (sym p))) h),
  λ n p q. c n p q ∙ rw (text_eq_other n name p) refl,
)

-- The part of `get_file` where the file exists.
abbrev pub asked : Bool → Bool → (ℕ → Reply) → Text → Files → Fetched
asked force init net name files =
    if force
    then fetch init net name (remove_file name files)
    else record { result = value name; files = files; requests = 0 }

found-Kept :
    (force init : Bool) (net : ℕ → Reply) (name : Text) (files : Files)
    → exists files name ≡ true
    → Kept name files (asked force init net name files)
found-Kept true init net name files e =
    removed-Kept name files (fetch init net name (remove_file name files))
      (fetch-Kept init net name (remove_file name files))
found-Kept false init net name files e = (λ n h. (ground arith, e), λ h. h, λ n p q. refl)

module _ (sha1 : Text → Text) (api : Api) (init : Bool) (net : Request → ℕ → Reply)
    (url extension : Text) (force : Bool) (files : Files) where
  -- A call of `get_file` that returns a name returns the one of the cache for its URL, and the file
  -- is there; it leaves no temporary file behind, errors included, if there was none; and it changes
  -- no other file.
  pub get_file-Kept :
      let name = cache_file sha1 url extension in
      Kept name files (get_file sha1 api init net url extension force files)
  unfolding get_file
  get_file-Kept = elim (Bool-cases (exists files (cache_file sha1 url extension))) [
    | inr e ↦
        rw e (fetch-Kept init (net (file_request api url)) (cache_file sha1 url extension) files)
    | inl e ↦
        rw e (
          found-Kept force init (net (file_request api url)) (cache_file sha1 url extension) files
            e)
  ]

  -- After a call that returned a name, any unforced call for the same URL returns it at once, without
  -- a request and without a change of the files, whatever the network does.
  pub get_file_again :
      (n : Text) (init' : Bool) (net' : Request → ℕ → Reply)
      → (get_file sha1 api init net url extension force files).result ≡ value n
      → let files' = (get_file sha1 api init net url extension force files).files in
        get_file sha1 api init' net' url extension false files'
        ≡ record { result = value n; files = files'; requests = 0 }
  unfolding get_file
  get_file_again n init' net' h = let (p, e) = get_file-Kept.0 n h in rw (e, p) refl
