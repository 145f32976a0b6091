-- ===== src/Bot/Dialog/Safe.antt =====
-- Every step of the dialogue keeps the invariant.
use tgbot_with_rest.Prelude.{
  some, ℕ, ℤ, Bool, true, false, String, List, [], ◌∷◌, ◌≡◌, refl, if◌then◌else◌,
}
use tgbot_with_rest.Text.{Text}
use tgbot_with_rest.Structures.{NewTask, empty_task}
use tgbot_with_rest.Access.{anyone, role_for_step}
use tgbot_with_rest.Bot.{Bot}
use tgbot_with_rest.Bot.World.{Keyboard, no_keyboard}
use tgbot_with_rest.Bot.Monad.{element, ◌>>=◌, after, M, ◌>>◌, modify_task}
use tgbot_with_rest.Bot.Keeps.{
  Keeps, IgnoresOut, >>=-Keeps, >>-Keeps, skip-Keeps, get-Keeps, request-Keeps, try_catch_tg-Keeps,
  call-Keeps, branch-Keeps, put-Keeps, when-Keeps, in_thread-Keeps, Ends,
}
use tgbot_with_rest.Bot.Inv.{same-At, Scope, Free, Inv, At, At-IgnoresOut, the_ud-Keeps}
use tgbot_with_rest.Bot.Points.{point_to-Keeps}
use tgbot_with_rest.Bot.Rules.{say-Keeps, support-Keeps, staff-Keeps, field-Keeps, step-Keeps}
use tgbot_with_rest.Bot.Notify.{say}
use tgbot_with_rest.Bot.Registry.{reload_contractors_list}
use tgbot_with_rest.Bot.Photos.{User, Message, SentMessage, with_from}
use tgbot_with_rest.Bot.Photos.Safe.{receive_photos-Keeps}
use tgbot_with_rest.Bot.Issue.Safe.{create_new_issue-Keeps}
use tgbot_with_rest.Bot.Dialog.{
  on_key_firstname, on_key_reason, add_contractor, on_add_new_contractor, on_msg_as_bot,
  on_host_command, on_new_msi_version, on_final, on_consumer_name, on_photos, step, small_talk,
  small_talk_from, handle_small_talk,
}
use tgbot_with_rest.Bot.Questions.{
  ask, on_description, on_subj, on_project, on_section, on_family_project, on_family_descr,
  on_family_category, on_family_unit,
}

module _ (staff : List ℤ) (sett : String → Text) (scope : Scope) (id : ℤ) where
  abbrev Kept : {A : Type 0} → M A → Type 0
  Kept = Keeps (At staff sett scope id)

  quiet : IgnoresOut (At staff sett scope id)
  quiet = At-IgnoresOut staff sett scope id

  field : (f : NewTask → NewTask) → ((t : NewTask) → (f t).stat_ ≡ t.stat_) → Kept (modify_task f)
  field = field-Keeps staff sett scope id

  clear : Kept (modify_task (λ t. empty_task))
  unfolding role_for_step
  clear = step-Keeps staff sett scope id _ (λ t. refl)

  ask-Keeps :
      (m : SentMessage) (record_field : NewTask → NewTask) (question : Text) (kb : Keyboard)
      (next : ℕ)
      → ((t : NewTask) → (record_field t).stat_ ≡ t.stat_)
      → role_for_step next ≡ anyone
      → Kept (ask m record_field question kb next)
  unfolding ask
  ask-Keeps m f question kb next h e =
      >>-Keeps (field f h)
        (>>-Keeps (say-Keeps quiet _ _ _) (step-Keeps staff sett scope id _ (λ t. e)))

  reload_contractors-Keeps : Kept reload_contractors_list
  unfolding reload_contractors_list
  reload_contractors-Keeps =
      >>-Keeps (put-Keeps _ (λ b p. same-At staff sett scope id b _ refl refl refl refl refl p)) (
        >>=-Keeps (call-Keeps quiet _)
          λ a. put-Keeps _ (λ b p. same-At staff sett scope id b _ refl refl refl refl refl p))

  firstname : (m : SentMessage) → Kept (on_key_firstname m)
  unfolding on_key_firstname role_for_step
  firstname m = get-Keeps λ b p. >>-Keeps (field _ (λ t. refl)) (
      >>=-Keeps (the_ud-Keeps staff sett scope id) λ ud.
        >>-Keeps (in_thread-Keeps (staff-Keeps quiet _ _))
          (>>-Keeps (say-Keeps quiet _ _ _) (step-Keeps staff sett scope id _ (λ t. refl))))

  reason : (m : SentMessage) → Kept (on_key_reason m)
  unfolding on_key_reason role_for_step
  reason m = get-Keeps λ b p.
      >>-Keeps (field _ (λ t. refl))
        (>>-Keeps (say-Keeps quiet _ _ _) (step-Keeps staff sett scope id _ (λ t. refl)))

  refuse :
      (m : SentMessage) (text : Text)
      → Kept (do say m.chat_id text no_keyboard; modify_task (λ t. empty_task))
  refuse m text = >>-Keeps (say-Keeps quiet _ _ _) clear

  contractor : (m : SentMessage) (parts : List Text) → Kept (add_contractor m parts)
  unfolding add_contractor
  contractor m (a ∷ b ∷ c ∷ d ∷ e ∷ []) = >>=-Keeps (call-Keeps quiet _) λ answer.
      branch-Keeps _
        (λ _. >>-Keeps (say-Keeps quiet _ _ _) (>>-Keeps reload_contractors-Keeps clear))
        (λ _. refuse m _)
  contractor m _ = refuse m _

  as_bot : (m : SentMessage) → Kept (on_msg_as_bot m)
  unfolding on_msg_as_bot
  as_bot m =
      >>-Keeps (try_catch_tg-Keeps (say-Keeps quiet _ _ _) (λ e. say-Keeps quiet _ _ _))
        (>>-Keeps (say-Keeps quiet _ _ _) clear)

  host_command : (m : SentMessage) → Kept (on_host_command m)
  unfolding on_host_command
  host_command m =
      >>=-Keeps (call-Keeps quiet _)
        λ a. branch-Keeps _ (λ _. support-Keeps quiet _ _) (λ _. support-Keeps quiet _ _)

  msi_version : (m : SentMessage) → Kept (on_new_msi_version m)
  unfolding on_new_msi_version
  msi_version m = >>-Keeps (request-Keeps quiet _) (>>-Keeps (say-Keeps quiet _ _ _) clear)

  final : (m : SentMessage) → Kept (on_final m)
  unfolding on_final
  final m = in_thread-Keeps (create_new_issue-Keeps staff sett scope id m)

  consumer_name : (m : SentMessage) → Kept (on_consumer_name m)
  unfolding on_consumer_name role_for_step
  consumer_name m =
      when-Keeps _
        λ _. get-Keeps λ b p. >>-Keeps (step-Keeps staff sett scope id _ (λ t. refl)) (final m)

  family_project : (m : SentMessage) → Kept (on_family_project m)
  unfolding on_family_project role_for_step
  family_project m = get-Keeps (λ b p. ask-Keeps m _ _ _ _ (λ t. refl) refl)

  photos : (m : SentMessage) → Kept (on_photos m)
  unfolding on_photos
  photos m =
      branch-Keeps _ (λ _. in_thread-Keeps (receive_photos-Keeps staff sett scope id m))
        (λ _. family_project m)

  chosen : {m n : M (Unit {0})} (c : Bool) → Kept m → Kept n → Kept (if c then m else n)
  chosen true h k = h
  chosen false h k = k

  description : (m : SentMessage) → Kept (on_description m)
  unfolding on_description role_for_step
  description m = get-Keeps (λ b p. ask-Keeps m _ _ _ _ (λ t. refl) refl)

  subj : (m : SentMessage) → Kept (on_subj m)
  unfolding on_subj role_for_step
  subj m = get-Keeps (λ b p. ask-Keeps m _ _ _ _ (λ t. refl) refl)

  project : (m : SentMessage) → Kept (on_project m)
  unfolding on_project role_for_step
  project m = get-Keeps (λ b p. ask-Keeps m _ _ _ _ (λ t. refl) refl)

  section : (m : SentMessage) → Kept (on_section m)
  unfolding on_section role_for_step
  section m = get-Keeps (λ b p. ask-Keeps m _ _ _ _ (λ t. refl) refl)

  family_descr : (m : SentMessage) → Kept (on_family_descr m)
  unfolding on_family_descr role_for_step
  family_descr m = get-Keeps (λ b p. ask-Keeps m _ _ _ _ (λ t. refl) refl)

  family_category : (m : SentMessage) → Kept (on_family_category m)
  unfolding on_family_category role_for_step
  family_category m = get-Keeps (λ b p. ask-Keeps m _ _ _ _ (λ t. refl) refl)

  family_unit : (m : SentMessage) → Kept (on_family_unit m)
  unfolding on_family_unit role_for_step
  family_unit m = get-Keeps (λ b p. ask-Keeps m _ _ _ _ (λ t. refl) refl)

  add_new_contractor : (m : SentMessage) → Kept (on_add_new_contractor m)
  unfolding on_add_new_contractor
  add_new_contractor m = get-Keeps (λ b p. contractor m _)

  stat-Keeps : (stat : ℕ) (m : SentMessage) → Kept (step stat m)
  unfolding step
  stat-Keeps stat m =
      (chosen _ (firstname m) (
        chosen _ (reason m) (
          chosen _ (add_new_contractor m) (
            chosen _ (as_bot m) (
              chosen _ (host_command m) (
                chosen _ (msi_version m) (
                  chosen _ (consumer_name m) (
                    chosen _ (final m) (
                      chosen _ (description m) (
                        chosen _ (subj m) (
                          chosen _ (project m) (
                            chosen _ (section m) (
                              chosen _ (photos m) (
                                chosen _ (family_project m) (
                                  chosen _ (family_descr m) (
                                    chosen _ (family_category m)
                                      (chosen _ (family_unit m) skip-Keeps)))))))))))))))))

  small_talk-Keeps : (m : SentMessage) → Kept (small_talk m)
  unfolding small_talk
  small_talk-Keeps m = get-Keeps λ b p.
      >>=-Keeps (the_ud-Keeps staff sett scope id)
        λ ud. branch-Keeps _ (λ _. stat-Keeps _ m) (λ _. clear)

small_talk_from-Inv :
    (staff : List ℤ) (sett : String → Text) (scope : Scope) (m : SentMessage) (b : Bot)
    → Free scope m.from_id
    → Inv staff sett scope b
    → Ends (Inv staff sett scope) (small_talk_from m b)
unfolding small_talk_from
small_talk_from-Inv staff sett scope m b own p =
    (point_to-Keeps staff sett scope m.from_id own (small_talk-Keeps staff sett scope m.from_id m)
        skip-Keeps).run
      b p

-- In a state with the invariant, no message without a command, if it has a sender, leads to the
-- use of a null or dangling pointer or to an index out of range, at any step of the dialogue, and
-- the invariant holds afterwards, also if the handler ends in an exception or in `std::terminate`.
-- The pointers are `message->from`, which by the condition is there, and `uD`. The scope of the
-- invariant, a condition on the session of each user, must be free for the sender; so no other
-- session leaves its scope.
pub handle_small_talk-Inv :
    (staff : List ℤ) (sett : String → Text) (scope : Scope) (m : Message) (u : User) (b : Bot)
    → m.from ≡ some u
    → Free scope u.id
    → Inv staff sett scope b
    → Ends (Inv staff sett scope) (handle_small_talk m b)
unfolding handle_small_talk element ◌>>=◌ after
handle_small_talk-Inv staff sett scope m u b there own p =
    rw there (small_talk_from-Inv staff sett scope (with_from m u) b own p)
