-- ===== src/Tests/Machine.antt =====
-- Concrete inputs for the theorems on the start, the report, downloads and the console.
use tgbot_with_rest.Prelude.{
  ℤ, pos, true, false, List, [], ◌∷◌, ◌++◌, none, some, ◌≡◌, ◌↔◌, ◌⊎◌, refl, All, map, replicate,
  arith,
}
use tgbot_with_rest.Text.{Text, utf8, NoSlash}
use tgbot_with_rest.Http.{Reply}
use tgbot_with_rest.Trello.Cache.{cache_file}
use tgbot_with_rest.Trello.Cache.Names.{sha1, cache_file_lem}
use tgbot_with_rest.Download.{download_image_from_url, Saves, download_lem}
use tgbot_with_rest.Worker.{Machine, Desk, get_mem_size, report, get_proc_id_by_name, qt_bg_worker}
use tgbot_with_rest.Worker.Restarts.{IsProcess, First, qt_bg_worker_lem}
use tgbot_with_rest.Numbers.{atol}
use tgbot_with_rest.Startup.{heading, Host, exits, failed, all_sent, main}
use tgbot_with_rest.Startup.Outcome.{Serves, Opens, numbered, main_lem}
use tgbot_with_rest.Console.Lines.{
  Line, put_lines, fresh, flat, console_line, debug_line, lines_lem,
}

abbrev sample_reply : Reply
sample_reply = record { curl_code = 0; status = 200; answer = b'x' ∷ [] }

download_lem_example :
    (name : Text) × All NoSlash name
    × Saves
        (utf8 "/tmp/" ++ name)
        true
        sample_reply
        (λ n. none)
        (download_image_from_url (b'i' ∷ []) true sample_reply (utf8 "../../etc/f") (λ n. none))
download_lem_example =
    download_lem (b'i' ∷ []) true sample_reply (utf8 "../../etc/f") (λ n. none) (refl, tt)

abbrev idle_machine : Machine
idle_machine = record {
  output = utf8 "  19.60 Mb chanserv";
  stof = λ s. some (pos 19);
  entries = record { d_name = utf8 "7"; cmdline = utf8 "/bin/sh" } ∷ [];
  throws = λ s. false;
}

abbrev clear_desk : Desk
clear_desk = record { sent = []; started = [] }

qt_bg_worker_lem_example :
    let r = qt_bg_worker idle_machine (b'p' ∷ []) 60000 clear_desk in
    ((get_mem_size idle_machine ≡ none) × (r.threw ≡ true) × (r.state ≡ clear_desk))
    ⊎ ((n : ℤ) × (get_mem_size idle_machine ≡ some n)
        × (r.state.sent ≡ [] ++ report n 60000 ∷ [])
        × (((r.threw ≡ true)
              × (idle_machine.throws (report n 60000) ≡ true)
              × (r.state.started ≡ []))
            ⊎ ((r.threw ≡ false)
                × All (λ e. ¬ IsProcess (utf8 "listchecker") e) idle_machine.entries
                × (r.state.started
                    ≡ []
                      ++ (utf8 "pkill", utf8 "listchecker" ∷ [])
                        ∷ (utf8 "qterminal", utf8 "-e" ∷ (b'p' ∷ []) ∷ [])
                        ∷ []))
            ⊎ ((r.threw ≡ false)
                × First
                    (utf8 "listchecker")
                    idle_machine.entries
                    (get_proc_id_by_name (utf8 "listchecker") idle_machine.entries)
                × (r.state.started ≡ []))))
qt_bg_worker_lem_example = qt_bg_worker_lem idle_machine (b'p' ∷ []) 60000 clear_desk

-- Both databases open, and the file cannot be parsed.
abbrev sample_host : Host
sample_host = record {
  outside = record { parse_file = none; open_error = λ pg. none; select_value = λ name. some [] };
  open_mssql = λ conn. none;
  consumers = (b'7' ∷ [], b'u' ∷ []) ∷ [];
  to_int = atol;
  buttons = λ role. [];
}

main_lem_example :
    (Opens sample_host
      × (Serves sample_host [] ↔ (◌≡◌ {A = List Text} [] []))
      × (main sample_host (utf8 "notify" ∷ (b'm' ∷ []) ∷ [])
          ≡ exits 0 (
              some (
                heading (b'm' ∷ []) ∷ numbered atol (b'm' ∷ []) 0 sample_host.consumers
                ++ all_sent ∷ []))))
    ⊎ ((¬ Opens sample_host) × ((err : Text) × (main sample_host [] ≡ failed err)))
main_lem_example = main_lem sample_host [] (b'm' ∷ []) []

abbrev sample_digest : Text → Text
sample_digest s = replicate 20 7

cache_file_lem_example :
    ((cache_file (sha1 sample_digest) (b'u' ∷ []) (b'.' ∷ [])
        ≡ cache_file (sha1 sample_digest) (b'v' ∷ []) (b'.' ∷ []))
      ↔ (sample_digest (b'u' ∷ []) ≡ sample_digest (b'v' ∷ [])))
    × ((name : Text) × All NoSlash name
        × (cache_file (sha1 sample_digest) (b'u' ∷ []) (b'.' ∷ []) ≡ utf8 "cache/" ++ name))
cache_file_lem_example =
    cache_file_lem sample_digest (b'u' ∷ []) (b'v' ∷ []) (b'.' ∷ []) (λ s. (refl, omega arith))
      (refl, tt)

abbrev sample_lines : List Line
sample_lines =
    record { texts = (b'1' ∷ [], b'a' ∷ []) ∷ (b'2' ∷ [], b'b' ∷ []) ∷ []; end = b'3' ∷ [] } ∷ []

lines_lem_example :
    put_lines sample_lines (fresh [] [])
    ≡ fresh ([] ++ flat (map console_line sample_lines)) ([] ++ map debug_line sample_lines)
lines_lem_example = lines_lem sample_lines [] []
