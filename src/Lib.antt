-- ===== src/Lib.antt =====
-- Verification of the Telegram bot of src/: users report problems in a dialogue, contractors work
-- off the issues, and staff approves keys for Revit. Paths are from the root of the repository.
--
-- The parts and their files:
-- - Access: src/access.h, which role an action needs.
-- - Structures: the records and step numbers of src/structures.h.
-- - Sessions, with Laws and Idle: src/session_store.h. The map is an association list; a pointer to
--   a session is its key; the steady clock is an argument.
-- - Tasks, with Order: src/task_queue.h. What a task does is a parameter.
-- - Escape, with Pieces, Buffer and RoundTrip: escape_json_entire_text and escape_string of
--   src/support.cpp. The buffer of escape_string is a list of cells that the loop overwrites.
-- - Numbers, with RoundTrip: itoa of src/support.cpp, and std::stol and atol, in decimal on `long`
--   of 64 bits.
-- - Totp: generate_totp of src/support.cpp, and Bits: `^` and `|` on bytes.
-- - Webhook: secure_equals and webhook_token_valid of src/support.cpp, and Handler: the handler of
--   the webhook in src/main.cpp and jira_webhooks_handler of src/chanserv.cpp.
-- - Assignees: remember_assignee of src/jiraapi.h.
-- - Json: a reader of JSON into tokens, and what is taken of boost::json. Http: the requests of
--   curl and their replies.
-- - Trello, with Search and GetCard: src/trelloapi.cpp; Body, Codes, and Cache with Kept and Rounds
--   below it, on the bodies of requests, on results, and on the cache of files; Cache/Names: sha1
--   of src/support.cpp, which names the cached files.
-- - Jira, with Letters: src/jiraapi.cpp; Body and Codes are on the body of a new task and on
--   results, Letters/Once on the letters to assignees.
-- - ListChecker: listchecker/listchecker.cxx. Table is the table of issues behind the laws of
--   its SQL statements, Monad the steps that return, throw or end the process, Cards and Pass the
--   functions of list_checker; Row says what a pass is to do with an issue, and Runs, Managed,
--   OneCard, After, Sweep and Refines show that it does. Loop: listchecker/main.cxx, whose
--   event loop is run as far as its timers have fired; Stable and Settled are on passes that follow each
--   other.
-- - Bot: chanserv_bot. World holds the requests to the outside, Monad the handlers as functions on
--   the state that return, throw, end in std::terminate, or use a null or dangling pointer or an
--   index out of range (`fault`). Users and Registry are the role checks and the lists of users
--   (src/chanserv.cpp, src/abstract_chanserv.cpp), Notify the messages (src/support.cpp), Photos,
--   Issue and MyIssues the issues (src/chanserv.cpp), Keys the master keys, Questions and Dialog
--   handle_small_talk and Dispatcher session_dispatcher (src/chanserv_on_any_message.cpp), Query,
--   Approval, Actions and Callback the buttons (src/chanserv_callbacks.cpp), Commands
--   src/chanserv_commands.cpp, Loop the loop of bot_start (src/chanserv.cpp), and Isolation what an
--   update leaves to other users. Services and Forms below Callback are on its groups of buttons. A
--   module Safe below such a module shows that its handlers keep the invariant `Inv` of Bot/Inv;
--   the rules are in Bot/Keeps, Points and Rules. MyIssues/Pointer and Callback/Clicked are on the
--   pointer to the clicked issue, and Returns on what holds if a handler returns, where it may also
--   use a null pointer.
-- - Startup, with Outcome: src/main.cpp up to its threads, and of src/chanserv.cpp the constructor,
--   IInitializeDB, initialize_tracking_apis and the coroutine of service_notification.
-- - Process: the threads of src/main.cpp (the main thread, the monitor, the listener) as a step
--   relation on the queue, the flag of a stop, the mutex and the condition variable. Order is on
--   the queue, Wakeup and Ends on the end of the process.
-- - Worker, with Restarts: qt_bg_worker of src/chanserv.cpp, get_mem_size of
--   src/abstract_chanserv.cpp, and get_proc_id_by_name and restart_list_checker_in_qterminal of
--   src/support.cpp.
-- - Download: download_image_from_url of src/support.cpp.
-- - Console, with Lines: cpp_out of src/support.h, the log and the lines of src/support.cpp, and
--   the methods of src/adaptorimp.cpp and src/serverdbus.cpp.
-- - Settings: src/chanconf.cpp; Read is on the lifetime of sessions that chanserv.cpp takes from
--   the settings.
-- - Keyboards: src/chanserv_keyboards.cpp; Open is on who may press the buttons.
-- - Prelude and Text: shared types, tests and lemmas; texts are lists of bytes. Below Tests:
--   concrete inputs.
--
-- How they interact: Bot's state has the sessions, the pointer uD into them (`u_d`), the settings
-- and the lists of users. A handler first points uD to the session of its user, and then works
-- through it. The pointers of the source that may be null or dangle are values whose use may fail:
-- `message->from` and `query->message` are options, `uD` is the key of a session, and the pointer
-- to the clicked issue is a place in the issues of a session, with the count of the changes of
-- that list when the pointer was made (`issues_changes`, which stands for the validity of pointers
-- into the vector and has no counterpart in the source). Requests (Telegram, SQL, Trello, Jira,
-- processes, files) are recorded in `out` and answered by an arbitrary function of the
-- environment, which may also throw. An in_thread is joined at the end of its block; the model
-- runs it in its place, which is one of the possible orders. An exception that leaves it ends the
-- process. In Process the bot's loop is seen from outside: the tasks that the threads post are run
-- by the main thread, between two rounds of the long poll.
--
-- Loops are structural recursions; the digits of a number n are printed with fuel n + 1, and one
-- more for a negative number, which the round trip shows to be enough. `long` is an integer, with
-- its bounds where text is read; the index of the biggest photo is taken modulo 2^8.
--
-- Parameters: Qt's conversions of texts and its reading of URLs, SHA-1, the choice of a sticker,
-- the replies to curl's requests, curl_easy_escape, boost::json, toml++, the database, the output
-- of scripts, std::stof, the entries of /proc, GUIDs and times, and all other answers from outside.
-- The hypotheses on them are that SHA-1 yields 20 bytes, that texts consist of bytes, that
-- messages have a sender and presses of buttons come with their message, and for the list checker
-- that issues are keyed by their cards, that SQL statements which succeed do what they say, and
-- that they succeed.
--
-- Not modelled: the DBus connection and its registration, the registration of the commands, the
-- farewell message, the insides of e-mail, the wrappers of curl, threads and formats in
-- src/support.h, and format_datetime_with_offset, which only call libraries. What the handlers
-- print is not part of their results. A setting for the lifetime of sessions of more than 2.5
-- million hours, which overflows the duration, is not modelled either.
pub mod Prelude
pub mod Text
pub mod Structures
pub mod Access
pub mod Sessions
pub mod Tasks
pub mod Escape
pub mod Json
pub mod Http
pub mod Trello
pub mod Numbers
pub mod Bits
pub mod Totp
pub mod Webhook
pub mod Assignees
pub mod Keyboards
pub mod Settings
pub mod Console
pub mod Startup
pub mod Worker
pub mod Download
pub mod Process
pub mod Jira
pub mod ListChecker
pub mod Bot
pub mod Tests
