-- ===== src/Bot/Callback/Button.antt =====
-- The buttons of a request for a key, from their making in src/chanserv_on_any_message.cpp to their
-- reading in src/chanserv_callbacks.cpp.
use tgbot_with_rest.Prelude.{
  ℤ, true, false, ◌∙◌, length-append, drop-length, ap, subst, arith, ◌++◌, some, ◌≡◌, refl, drop,
  length, ltb,
}
use tgbot_with_rest.Text.{Text, utf8, text_eq, starts_with}
use tgbot_with_rest.Numbers.{itoa, stol, fits_long}
use tgbot_with_rest.Numbers.RoundTrip.{stol-itoa}
use tgbot_with_rest.Access.{staff, role_for_callback}
use tgbot_with_rest.Bot.Approval.{requester}

-- Twenty characters stand before the id.
requester_prefix : (p s : Text) → length p ≡ 20 → requester (p ++ s) ≡ stol s
unfolding requester
requester_prefix p s h =
    let e : ltb (length (p ++ s)) 20 ≡ false = ground (arith, length-append p s) in
    rw e (ap stol (subst (λ n. drop n (p ++ s) ≡ s) h (drop-length p s)))

-- The data of both buttons of a request needs the role of staff, and yields the id of the user who
-- asked, for every id that fits `long`.
pub requester-button :
    (id : ℤ)
    → fits_long id ≡ true
    → (role_for_callback (utf8 "approve_key_request_" ++ itoa id) ≡ staff)
      × (requester (utf8 "approve_key_request_" ++ itoa id) ≡ some id)
      × (role_for_callback (utf8 "_reject_key_request_" ++ itoa id) ≡ staff)
      × (requester (utf8 "_reject_key_request_" ++ itoa id) ≡ some id)
unfolding role_for_callback text_eq starts_with utf8
requester-button id h = (
  refl,
  requester_prefix (utf8 "approve_key_request_") (itoa id) refl ∙ stol-itoa id h,
  refl,
  requester_prefix (utf8 "_reject_key_request_") (itoa id) refl ∙ stol-itoa id h,
)
