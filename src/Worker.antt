-- ===== src/Worker.antt =====
-- The report of the monitor: `qt_bg_worker` of src/chanserv.cpp, with `get_mem_size` of
-- src/abstract_chanserv.cpp and `get_proc_id_by_name` of src/support.cpp. The output of the script,
-- `std::stof`, the directory `/proc` and whether a message throws are parameters.
pub mod Restarts
use tgbot_with_rest.Prelude.{
  ℕ, ◌+◌, ◌-◌, ◌/◌, ◌%◌, ◌^◌, Bool, true, false, not, ◌&&◌, List, [], ◌∷◌, ◌++◌, Option, none, some,
  ℤ, pos, negsuc, ltb, ◌==◌, if◌then◌else◌, is_empty, ◌≡◌, ◌≢◌, refl, sym, ap, ◌∙◌, All, ◌⊎◌, inl,
  inr, ◌↔◌, arith, Bool-cases,
}
use tgbot_with_rest.Text.{Text, utf8, text_eq, text_eq_iff, starts_with}
use tgbot_with_rest.Numbers.{itoa, atol, is_space}
use tgbot_with_rest.Http.{c_str}
use tgbot_with_rest.Webhook.Handler.{after_last}
use tgbot_with_rest.Tasks.{Effect}
use tgbot_with_rest.Process.{Task}

-- A `long` as an `int` of 32 bits.
abbrev to_int32 : ℤ → ℤ
to_int32 (pos n) = let r = n % 2 ^ 32 in if ltb r (2 ^ 31) then pos r else negsuc (2 ^ 32 - 1 - r)
to_int32 (negsuc n) =
    let r = n % 2 ^ 32 in if ltb r (2 ^ 31) then negsuc r else pos (2 ^ 32 - 1 - r)

-- As glibc has it.
unfoldable pub atoi : Text → ℤ
atoi s = to_int32 (atol s)

abbrev pub is_positive : ℤ → Bool
is_positive (pos n) = ltb 0 n
is_positive (negsuc n) = false

-- `getline`.
unfoldable pub first_line : Text → Text
first_line [] = []
first_line (c ∷ s) = let rest = first_line s in if c == 10 then [] else c ∷ rest

-- An entry of `/proc`: its name, and its file `cmdline`, empty if it cannot be read.
pub record ProcEntry : Type 0 where
  pub d_name : Text
  pub cmdline : Text

-- The first item of the line, without its path.
unfoldable pub program : ProcEntry → Text
unfolding first_line
program e = let path = c_str (first_line e.cmdline) in after_last path path

unfoldable pub is_process : Text → ProcEntry → Bool
unfolding program atoi
is_process proc_name e =
    is_positive (atoi e.d_name)
    && (not (is_empty (first_line e.cmdline)) && text_eq proc_name (program e))

-- The loop over the entries, which ends at the first process of the name; -1 if there is none.
unfoldable pub get_proc_id_by_name : Text → List ProcEntry → ℤ
unfolding is_process
get_proc_id_by_name proc_name [] = negsuc 0
get_proc_id_by_name proc_name (e ∷ entries) = elim (is_process proc_name e) [
  | true ↦ atoi e.d_name
  | false ↦ get_proc_id_by_name proc_name entries
]

-- `substr(0, find(part))`, which is all of it if there is no such part.
unfoldable pub text_before : Text → Text → Text
unfolding starts_with
text_before part [] = []
text_before part (c ∷ s) =
    let rest = text_before part s in if starts_with (c ∷ s) part then [] else c ∷ rest

unfoldable pub trim_left : Text → Text
trim_left [] = []
trim_left (c ∷ s) = let rest = trim_left s in if is_space c then rest else c ∷ s

-- The spaces at the end are those behind which nothing else stands.
unfoldable pub trim_right : Text → Text
trim_right [] = []
trim_right (c ∷ s) = let rest = trim_right s in if is_space c && is_empty rest then [] else c ∷ rest

unfoldable pub mem_text : Text → Text
unfolding text_before trim_left trim_right utf8
mem_text output = trim_left (trim_right (text_before (utf8 "Mb") output))

-- Programs that were started, with their arguments.
pub record Desk : Type 0 where
  pub sent : List Text
  pub started : List (Text × List Text)

pub record Machine : Type 0 where
  pub output : Text
  pub stof : Text → Option ℤ
  pub entries : List ProcEntry
  pub throws : Text → Bool

-- `std::stof` throws on a text that is no number; its value is cut to an integer.
unfoldable pub get_mem_size : Machine → Option ℤ
unfolding mem_text
get_mem_size m = m.stof (mem_text m.output)

unfoldable pub restart_list_checker_in_qterminal : Text → Desk → Desk
unfolding utf8
restart_list_checker_in_qterminal start_path d = record d {
  started =
      d.started
      ++ (utf8 "pkill", utf8 "listchecker" ∷ [])
        ∷ (utf8 "qterminal", utf8 "-e" ∷ start_path ∷ [])
        ∷ [];
}

abbrev pub report : ℤ → ℕ → Text
report bot_mem_size elapsed =
    utf8 "TgBot "
    ++ (itoa bot_mem_size
        ++ (utf8 " Мб в памяти"
            ++ (utf8 ", uptime " ++ (itoa (pos (elapsed / 1000 / 60)) ++ utf8 " min"))))

-- Behind the message.
unfoldable pub check_listchecker : Machine → Text → Desk → Desk
unfolding get_proc_id_by_name restart_list_checker_in_qterminal utf8
check_listchecker m start_path d =
    if is_positive (get_proc_id_by_name (utf8 "listchecker") m.entries)
    then d
    else restart_list_checker_in_qterminal start_path d

unfoldable pub qt_bg_worker : Machine → Text → ℕ → Desk → Effect Desk Task
unfolding get_mem_size check_listchecker
qt_bg_worker m start_path elapsed d = elim (get_mem_size m) [
  | none ↦ record { state = d; posted = []; threw = true }
  | some n ↦
      let d' : Desk = record d { sent = d.sent ++ report n elapsed ∷ [] } in
      if m.throws (report n elapsed)
      then record { state = d'; posted = []; threw = true }
      else record { state = check_listchecker m start_path d'; posted = []; threw = false }
]
