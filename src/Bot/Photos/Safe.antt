-- ===== src/Bot/Photos/Safe.antt =====
-- The pictures of a message are kept without an index out of range, and with the invariant.
use tgbot_with_rest.Prelude.{
  ◌-◌, ◌%◌, ℤ, true, not, String, List, [], ◌∷◌, Option, none, some, ◌≡◌, refl, length, get_elem?,
  get_elem?_exists, is_empty, arith,
}
use tgbot_with_rest.Text.{Text}
use tgbot_with_rest.Bot.{Bot}
use tgbot_with_rest.Bot.Monad.{M, element}
use tgbot_with_rest.Bot.Keeps.{
  Keeps, IgnoresOut, >>=-Keeps, >>-Keeps, skip-Keeps, get-Keeps, try_catch-Keeps, call-Keeps,
  when-Keeps,
}
use tgbot_with_rest.Bot.Inv.{Scope, At, At-IgnoresOut}
use tgbot_with_rest.Bot.Rules.{element-Keeps, field-Keeps}
use tgbot_with_rest.Bot.Photos.{
  SentMessage, keep_file, receive_photo, receive_document, receive_photos,
}

-- The index of the biggest photo is in range, whatever the number of photos.
photo-Keeps :
    (P : Bot → Type 0) (photo : List Text)
    → not (is_empty photo) ≡ true
    → Keeps P (element (get_elem? photo ((length photo - 1) % 256)))
photo-Keeps P [] h = absurd (ground arith)
photo-Keeps P (x ∷ xs) h =
    let (a, e) = get_elem?_exists (x ∷ xs) ((length (x ∷ xs) - 1) % 256) (omega arith) in
    rw e (element-Keeps P a)

module _ (staff : List ℤ) (sett : String → Text) (scope : Scope) (id : ℤ) where
  abbrev Kept : {A : Type 0} → M A → Type 0
  Kept = Keeps (At staff sett scope id)

  quiet : IgnoresOut (At staff sett scope id)
  quiet = At-IgnoresOut staff sett scope id

  keep_file-Keeps : (path : Text) → Kept (keep_file path)
  unfolding keep_file
  keep_file-Keeps path = when-Keeps _ λ _.
      get-Keeps
        λ b p. >>=-Keeps (call-Keeps quiet _) (λ a. field-Keeps staff sett scope id _ (λ t. refl))

  receive_photo-Keeps : (photo : List Text) → Kept (receive_photo photo)
  unfolding receive_photo
  receive_photo-Keeps photo = when-Keeps _ λ some_photo.
      >>=-Keeps (photo-Keeps _ photo some_photo) λ file_id.
        >>=-Keeps (call-Keeps quiet _) λ file.
          >>-Keeps (keep_file-Keeps file.text) (field-Keeps staff sett scope id _ (λ t. refl))

  receive_document-Keeps : (document : Option Text) → Kept (receive_document document)
  unfolding receive_document
  receive_document-Keeps none = skip-Keeps
  receive_document-Keeps (some file_id) =
      >>=-Keeps (call-Keeps quiet _)
        λ file. >>-Keeps (field-Keeps staff sett scope id _ (λ t. refl)) (keep_file-Keeps file.text)

  pub receive_photos-Keeps : (m : SentMessage) → Kept (receive_photos m)
  unfolding receive_photos
  receive_photos-Keeps m =
      try_catch-Keeps (>>-Keeps (receive_photo-Keeps m.photo) (receive_document-Keeps m.document))
        (λ e. skip-Keeps)
