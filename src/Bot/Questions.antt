-- ===== src/Bot/Questions.antt =====
-- The steps of the dialogue that record an answer and ask the next question: cases of
-- `handle_small_talk` in src/chanserv_on_any_message.cpp.
use tgbot_with_rest.Prelude.{ℕ}
use tgbot_with_rest.Text.{Text, utf8}
use tgbot_with_rest.Structures.{
  NewTask, task_project_step2, task_subj_step3, task_descr_step4, family_category_step2,
  family_descr_step3, family_project_step4, shared_firstname_step5,
}
use tgbot_with_rest.Bot.{Bot}
use tgbot_with_rest.Bot.World.{Keyboard, no_keyboard, kb_manage_photos}
use tgbot_with_rest.Bot.Monad.{M, ◌>>=◌, ◌>>◌, get, modify_task}
use tgbot_with_rest.Bot.Notify.{say, truncate_msg_from_user, remove_breaks}
use tgbot_with_rest.Bot.Photos.{SentMessage}

-- The text of a message cut to `width`, and the same without line breaks and tabs.
unfoldable pub long_text : ℕ → SentMessage → Bot → Text
long_text width m b = truncate_msg_from_user b.env.qt m.text width

unfoldable pub line_text : ℕ → SentMessage → Bot → Text
line_text width m b = truncate_msg_from_user b.env.qt (remove_breaks m.text) width

-- A field is recorded, the next question is asked, and then the step is left.
unfoldable pub ask : SentMessage → (NewTask → NewTask) → Text → Keyboard → ℕ → M (Unit {0})
ask m record_field question kb next = do
  modify_task record_field
  say m.chat_id question kb
  modify_task (λ t. record t { stat_ = next })

unfoldable pub on_description : SentMessage → M (Unit {0})
unfolding ask
on_description m = do
  b ← get
  ask m (λ t. record t { description = long_text 3000 m b })
      (utf8
        "Пришлите изображения и <i><b>после их отправки</b></i> нажмите кнопку \"Нет больше фото\"")
      kb_manage_photos shared_firstname_step5

unfoldable pub on_subj : SentMessage → M (Unit {0})
unfolding ask
on_subj m = do
  b ← get
  ask m (λ t. record t { subj = line_text 150 m b }) (utf8 "Опишите максимально подробно проблему")
      no_keyboard task_descr_step4

unfoldable pub on_project : SentMessage → M (Unit {0})
unfolding ask
on_project m = do
  b ← get
  ask m (λ t. record t { project = line_text 150 m b })
      (utf8 "Записано\nНапишите одним словом тему обращения") no_keyboard task_subj_step3

unfoldable pub on_section : SentMessage → M (Unit {0})
unfolding ask
on_section m = do
  b ← get
  ask m (λ t. record t { section = line_text 150 m b })
      (utf8
        "Записано\nНапишите, по какому проекту вопрос?\nНапример: Синергия 11.1.3 или Кампусы ВН")
      no_keyboard task_project_step2

unfoldable pub on_family_project : SentMessage → M (Unit {0})
unfolding ask
on_family_project m = do
  b ← get
  ask m (λ t. record t { project = line_text 150 m b })
      (utf8 "Пришлите изображения и <b>после</b> их отправки нажмите кнопку \"Нет больше фото\"")
      kb_manage_photos shared_firstname_step5

unfoldable pub on_family_descr : SentMessage → M (Unit {0})
unfolding ask
on_family_descr m = do
  b ← get
  ask m (λ t. record t { description = long_text 3000 m b })
      (utf8 "<u><b>Путь/ссылка</b></u> на документацию (сайт или семейство):") no_keyboard
      family_project_step4

unfoldable pub on_family_category : SentMessage → M (Unit {0})
unfolding ask
on_family_category m = do
  b ← get
  ask m (λ t. record t { category = line_text 150 m b })
      (utf8
        "<u><b>Напиши, что нужно сделать</b></u>:\nЖелательно указать:\n -параметры;\n -информацию об УГО")
      no_keyboard family_descr_step3

unfoldable pub on_family_unit : SentMessage → M (Unit {0})
unfolding ask
on_family_unit m = do
  b ← get
  ask m (λ t. record t { section = line_text 150 m b })
      (utf8 "Записано\n<u><b>Категория</b></u> семейства: ") no_keyboard family_category_step2
