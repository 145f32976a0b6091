-- ===== src/Download.antt =====
-- `download_image_from_url` of src/support.cpp: a file of a chat is copied into `/tmp`. The name that
-- Qt makes, whether the file can be opened, and the reply are parameters.
use tgbot_with_rest.Prelude.{
  ℕ, ◌-◌, Bool, true, not, ◌||◌, [], ◌∷◌, ◌++◌, some, ◌==◌, if◌then◌else◌, length, take, drop,
  keep_if, ◌≡◌, ◌≢◌, All, All-append, All-take, All-drop, ◌⊎◌, inl, inr, ◌↔◌, arith, Bool-cases,
}
use tgbot_with_rest.Text.{Text, utf8, text_eq, text_eq_iff, NoSlash}
use tgbot_with_rest.Http.{Reply, curle_ok}
use tgbot_with_rest.Trello.Cache.{Files, write_file}

-- `std::erase(fname, c)`.
abbrev erase_char : ℕ → Text → Text
erase_char c = keep_if (λ d. not (d == c))

-- `toString().right(36).left(35)`.
abbrev uuid_part : Text → Text
uuid_part uuid = take 35 (drop (length uuid - 36) uuid)

abbrev file_part : Text → Text → Text
file_part uuid fname = uuid_part uuid ++ erase_char b'\\' (erase_char b'/' fname)

pub record Downloaded : Type 0 where
  pub result : Text
  pub files : Files

-- An error of curl, and a status other than 200 and 201, leave the file where it is.
unfoldable pub save : Text → Bool → Reply → Files → Downloaded
save tmp_fname opens reply files =
    if opens
    then record {
      result =
          if not (reply.curl_code == curle_ok)
          then []
          else if reply.status == 200 || reply.status == 201
          then tmp_fname
          else [];
      files = write_file tmp_fname reply.answer files;
    }
    else record { result = []; files = files }

unfoldable pub download_image_from_url : Text → Bool → Reply → Text → Files → Downloaded
unfolding save utf8
download_image_from_url uuid opens reply fname files =
    save (utf8 "/tmp/" ++ file_part uuid fname) opens reply files

erase_char-NoSlash : (s : Text) → All NoSlash (erase_char b'/' s)
erase_char-NoSlash [] = tt
erase_char-NoSlash (c ∷ s) = elim (Bool-cases (c == b'/')) [
  | inl e ↦ rw (e, All) (erase_char-NoSlash s)
  | inr e ↦ rw (e, All) (e, erase_char-NoSlash s)
]

erase_char-All : (P : ℕ → Type 0) (b : ℕ) (s : Text) → All P s → All P (erase_char b s)
erase_char-All P b [] h = tt
erase_char-All P b (c ∷ s) h = elim (Bool-cases (c == b)) [
  | inl e ↦ rw (e, All) (erase_char-All P b s h.1)
  | inr e ↦ rw (e, All) (h.0, erase_char-All P b s h.1)
]

file_part-NoSlash : (uuid fname : Text) → All NoSlash uuid → All NoSlash (file_part uuid fname)
file_part-NoSlash uuid fname h =
    All-append NoSlash (uuid_part uuid) _
      (All-take NoSlash 35 _ (All-drop NoSlash (length uuid - 36) uuid h))
      (erase_char-All NoSlash b'\\' _ (erase_char-NoSlash fname))

-- What a download to `path` is to do.
abbrev pub Saves : Text → Bool → Reply → Files → Downloaded → Type 0
Saves path opens reply files d =
    ((n : Text) → (n ≡ path) ⊎ (d.files n ≡ files n))
    × (((d.result ≡ path) × (d.files path ≡ some reply.answer)) ⊎ (d.result ≡ []))
    × ((d.result ≡ path) ↔ (
        (opens ≡ true)
        × (reply.curl_code ≡ curle_ok)
        × ((reply.status ≡ 200) ⊎ (reply.status ≡ 201))))

save_lem :
    (path : Text) (opens : Bool) (reply : Reply) (files : Files)
    → path ≢ []
    → Saves path opens reply files (save path opens reply files)
unfolding save
save_lem path opens reply files h = (
  λ n. elim (Bool-cases (text_eq n path)) [
    | inl e ↦ inl ((text_eq_iff n path).0 e)
    | inr e ↦ inr (ground arith)
  ],
  ground (arith, text_eq_iff path path),
  ground arith,
)

-- The download touches no file but one whose name is `/tmp/` and a name without a slash, so none outside
-- of `/tmp`, whatever name the chat gives; it returns this name, and the file holds the whole
-- answer, exactly if the file could be opened, curl reported no error and the status was 200 or 201;
-- otherwise it returns the empty text. (The name that Qt makes has no slash.)
pub download_lem :
    (uuid : Text) (opens : Bool) (reply : Reply) (fname : Text) (files : Files)
    → All NoSlash uuid
    → (name : Text) × All NoSlash name
      × Saves
          (utf8 "/tmp/" ++ name)
          opens
          reply
          files
          (download_image_from_url uuid opens reply fname files)
unfolding download_image_from_url utf8
download_lem uuid opens reply fname files h =
    (file_part uuid fname, file_part-NoSlash uuid fname h, save_lem _ opens reply files (λ e. cc))
