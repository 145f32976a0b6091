-- ===== src/Structures.antt =====
-- src/structures.h: the dialogue's step numbers and the records that the program keeps.
use tgbot_with_rest.Prelude.{ℕ, ℤ, pos, List, []}
use tgbot_with_rest.Text.{Text, utf8}

unfoldable pub header_content_type_app_json : Text
unfolding utf8
header_content_type_app_json = utf8 "Content-Type: application/json; charset=UTF-8"

abbrev pub table_bim_issues : ℕ
table_bim_issues = 1

abbrev pub table_tekla_issues : ℕ
table_tekla_issues = 2

abbrev pub developer_send_msg_as_bot : ℕ
developer_send_msg_as_bot = 201

abbrev pub developer_send_msg_to_gpt : ℕ
developer_send_msg_to_gpt = 202

abbrev pub developer_run_host_command : ℕ
developer_run_host_command = 203

abbrev pub staff_set_new_msi_version : ℕ
staff_set_new_msi_version = 301

abbrev pub staff_add_new_contractor : ℕ
staff_add_new_contractor = 302

abbrev pub task_section_step1 : ℕ
task_section_step1 = 401

abbrev pub task_project_step2 : ℕ
task_project_step2 = 402

abbrev pub task_subj_step3 : ℕ
task_subj_step3 = 403

abbrev pub task_descr_step4 : ℕ
task_descr_step4 = 404

abbrev pub family_unit_step1 : ℕ
family_unit_step1 = 501

abbrev pub family_category_step2 : ℕ
family_category_step2 = 502

abbrev pub family_descr_step3 : ℕ
family_descr_step3 = 503

abbrev pub family_project_step4 : ℕ
family_project_step4 = 504

abbrev pub shared_firstname_step5 : ℕ
shared_firstname_step5 = 605

abbrev pub shared_separate_tekla_from_bim_step6 : ℕ
shared_separate_tekla_from_bim_step6 = 606

abbrev pub shared_final_step7 : ℕ
shared_final_step7 = 607

abbrev pub revit_master_key_reason_step1 : ℕ
revit_master_key_reason_step1 = 701

abbrev pub revit_master_key_firstname_step2 : ℕ
revit_master_key_firstname_step2 = 702

pub record NewTask : Type 0 where
  pub tekla_card_caption : Text
  pub section : Text
  pub project : Text
  pub subj : Text
  pub category : Text
  pub description : Text
  pub type : Text
  pub consumer_tg_id : ℤ
  pub consumer_tg_username_link : Text
  pub consumer_name : Text
  pub stat_ : ℕ
  pub id_card : Text
  pub creation_date : Text
  pub v_docu_ids : List Text
  pub photo_ids : Text
  pub v_local_file_paths : List Text
  pub key_reason : Text

-- `jira_task = {}`.
abbrev pub empty_task : NewTask
empty_task = record {
  tekla_card_caption = [];
  section = [];
  project = [];
  subj = [];
  category = [];
  description = [];
  type = [];
  consumer_tg_id = pos 0;
  consumer_tg_username_link = [];
  consumer_name = [];
  stat_ = 0;
  id_card = [];
  creation_date = [];
  v_docu_ids = [];
  photo_ids = [];
  v_local_file_paths = [];
  key_reason = [];
}

pub record MostRecentMsgs : Type 0 where
  pub ms_query_row_id : ℤ
  pub msg_id : ℤ

pub record Contractor : Type 0 where
  pub id : ℤ
  pub name : Text
  pub link : Text
  pub trello_list : Text

pub record PgdbIssue : Type 0 where
  pub id : ℤ
  pub sent_msg_id : ℤ
  pub sent_chat_id : ℤ
  pub id_card : Text
  pub issue_num : Text
  pub unit : Text
  pub theme : Text
  pub project : Text
  pub photos : List Text
  pub from : Text
  pub category : Text
  pub description : Text
  pub creation_date : Text
  pub contractor_list : Text
  pub contractor_name : Text
  pub contractor_link : Text

-- `last_activity` is a point of the steady clock. `issues_changes` counts the changes of
-- `pgdb_issues`, each of which ends the life of the pointers into it; the source has no such field.
pub record UserDispatcher : Type 0 where
  pub chat_user_tg_id : ℤ
  pub chat_user_tg_name : Text
  pub chat_user_first_name : Text
  pub created_card_id : Text
  pub jira_task : NewTask
  pub last_error : ℕ
  pub pgdb_issues : List PgdbIssue
  pub recent_msgs : List MostRecentMsgs
  pub clicked_msg_id : ℤ
  pub recent_msg_ids : List ℤ
  pub last_activity : ℕ
  pub issues_changes : ℕ

-- A dispatcher built from an id and two names: all else is value-initialised.
abbrev pub new_dispatcher : ℤ → Text → Text → ℕ → UserDispatcher
new_dispatcher tg_id tg_name first_name now = record {
  chat_user_tg_id = tg_id;
  chat_user_tg_name = tg_name;
  chat_user_first_name = first_name;
  created_card_id = [];
  jira_task = empty_task;
  last_error = 0;
  pgdb_issues = [];
  recent_msgs = [];
  clicked_msg_id = pos 0;
  recent_msg_ids = [];
  last_activity = now;
  issues_changes = 0;
}
