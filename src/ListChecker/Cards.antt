-- ===== src/ListChecker/Cards.antt =====
-- What the list checker does with one card.
use tgbot_with_rest.Prelude.{
  ℤ, Bool, true, false, not, ◌&&◌, List, [], ◌∷◌, ◌++◌, Option, none, some, is_empty,
}
use tgbot_with_rest.Text.{emoji_style, Text, utf8, text_eq}
use tgbot_with_rest.Numbers.{itoa}
use tgbot_with_rest.Structures.{Contractor}
use tgbot_with_rest.Bot.World.{chat}
use tgbot_with_rest.Trello.{archiving_card}
use tgbot_with_rest.ListChecker.Table.{
  Database, Row, assign_contractor, clear_contractor, delete_issue, commit,
}
use tgbot_with_rest.ListChecker.Monad.{
  World, send_message, send_tg_message, archived, C, ◌>>=◌, ◌>>◌, pure, skip, exec, select, send,
  call, try_send, threaded,
}

abbrev exclamation : Text
exclamation = utf8 "❗" ++ emoji_style

-- `query.value(i).toString()`, empty where there is no row.
abbrev pub column : (Row → Text) → Option Row → Text
column f none = []
column f (some r) = f r

-- A card in the list for distribution that still has a contractor.
abbrev pub is_returned : World → Option Row → Bool
is_returned w row =
    text_eq (column (λ r. r.id_card_list) row) w.distribution_list
    && not (is_empty (column (λ r. r.contractor_list) row))

-- The first contractor with this list.
unfoldable pub find_contractor : Text → List Contractor → Option Contractor
find_contractor list [] = none
find_contractor list (c ∷ cs) = elim (text_eq c.trello_list list) [
  | true ↦ some c
  | false ↦ find_contractor list cs
]

module _ {D : Database} (w : World) where
  -- The messages behind a successful assignment.
  unfoldable pub tell_assigned : Text → Contractor → C D (Unit {0})
  unfolding utf8
  tell_assigned consumer_id p =
      send w (
        send_message (chat (w.to_ulong consumer_id))
          (utf8 "Вашу задачу выполнит " ++ p.name ++ utf8 "!\n")
          (some (utf8 "Связаться ⚡" ++ emoji_style, utf8 "https://t.me/" ++ p.link)))
      >> call (
          send_tg_message (
            utf8 "Заказчику "
            ++ consumer_id
            ++ utf8 " отправлено сообщение: "
            ++ utf8 "Вашу задачу выполнит "
            ++ p.name))
      >> send w (
          send_message (chat p.id)
            ((exclamation ++ exclamation ++ exclamation)
              ++ utf8 " \nУ вас появилась новая задача - проверьте свои задачи")
            none)
      >> call (
          send_tg_message (
            utf8 "Исполнителю "
            ++ itoa p.id
            ++ utf8 " отправлено сообщение: У вас появилась новая задача - проверьте свои задачи"))

  unfoldable pub assigned : Text → Contractor → Bool → C D (Unit {0})
  unfolding tell_assigned
  assigned card_id p false = skip
  assigned card_id p true =
      exec commit >> select card_id >>= (λ row. tell_assigned (column (λ r. r.consumer_id) row) p)

  unfoldable pub assign_contractor_to_card : Text → Contractor → C D (Unit {0})
  unfolding assigned
  assign_contractor_to_card card_id p =
      exec (assign_contractor p.trello_list p.link (itoa p.id) p.name card_id)
      >>= assigned card_id p

  -- `send_msg_to_staff`, with or without a keyboard of one button.
  unfoldable pub send_msg_to_staff : List ℤ → Text → Option (Text × Text) → C D (Unit {0})
  send_msg_to_staff [] msg kbd = skip
  send_msg_to_staff (employee ∷ staff_tg_ids) msg kbd =
      try_send w (send_message (chat employee) msg kbd) >> send_msg_to_staff staff_tg_ids msg kbd

  -- The keyboard of the message to the staff is null, since `bootstrap`, which makes it, is called
  -- nowhere.
  unfoldable pub tell_rework : Option Row → C D (Unit {0})
  unfolding utf8 send_msg_to_staff
  tell_rework customer =
      send w (
        send_message (chat (w.to_ulong (column (λ r. r.consumer_id) customer)))
          (utf8
            "Извините, но наши специалисты вас не поняли.\nСформулируйсте вопрос подробнее и создайте новую задачу")
          none)
      >> threaded (
          send_msg_to_staff w.v_staff
            (utf8 "Уведомление 'Cоздайте новую задачу' юзеру "
              ++ column (λ r. r.consumer_name) customer
              ++ utf8 " по задаче "
              ++ column (λ r. r.theme) customer
              ++ utf8 " отправлено")
            none)
      >> call (
          send_tg_message (
            utf8 "Заказчику "
            ++ column (λ r. r.consumer_name) customer
            ++ utf8 " ("
            ++ column (λ r. r.consumer_link) customer
            ++ utf8
                ") отправлено сообщение: Извините, но наши специалисты вас не поняли. Сформулируйсте вопрос подробнее и создайте новую задачу"))

  unfoldable pub rework_card_and_notify : Text → C D (Unit {0})
  unfolding tell_rework
  rework_card_and_notify card_id =
      select card_id
      >>= tell_rework
      >> call (archived card_id (archiving_card w.api w.boost w.net card_id))
      >> exec (delete_issue card_id)
      >> exec commit
      >> skip

  unfoldable pub clear_returned : Text → Option Row → C D Text
  clear_returned card_id row = elim (is_returned w row) [
    | true ↦ exec (clear_contractor card_id) >> pure (column (λ r. r.id_card_list) row)
    | false ↦ pure (column (λ r. r.id_card_list) row)
  ]

  unfoldable pub sync_distributed_card : Text → C D Text
  unfolding clear_returned
  sync_distributed_card card_id = select card_id >>= clear_returned card_id

  unfoldable pub assign_to : Text → Option Contractor → C D (Unit {0})
  unfolding assign_contractor_to_card
  assign_to card_id none = skip
  assign_to card_id (some p) = assign_contractor_to_card card_id p

  unfoldable pub rework_in : Text → Bool → C D (Unit {0})
  unfolding rework_card_and_notify
  rework_in card_id true = rework_card_and_notify card_id
  rework_in card_id false = skip

  unfoldable pub manage_pending : Text → Text → Text → Bool → C D (Unit {0})
  unfolding assign_to rework_in find_contractor
  manage_pending card_id trello_card_list_id db_card_list_id false = skip
  manage_pending card_id trello_card_list_id db_card_list_id true =
      assign_to card_id (find_contractor trello_card_list_id w.v_contractors)
      >> rework_in card_id (text_eq db_card_list_id w.rework_list)

  unfoldable pub sync_n_manage_contractors_and_cards : Text → Text → C D (Unit {0})
  unfolding sync_distributed_card manage_pending utf8
  sync_n_manage_contractors_and_cards card_id trello_card_list_id =
      sync_distributed_card card_id >>= (λ db_card_list_id. select card_id >>= (λ row.
        manage_pending card_id trello_card_list_id db_card_list_id
          (text_eq (column (λ r. r.card_status) row) (utf8 "pending"))))
