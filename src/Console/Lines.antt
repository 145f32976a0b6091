-- ===== src/Console/Lines.antt =====
-- Lines of `c_out` (src/support.h).
use tgbot_with_rest.Prelude.{
  true, false, List, [], ◌∷◌, ◌++◌, ◌≡◌, refl, ap, ◌∙◌, map, append_assoc, append-nil,
}
use tgbot_with_rest.Text.{Text, utf8}
use tgbot_with_rest.Console.{CppOut, add_prefix_if_needed, put_text, put_endl}

-- The texts of a statement `c_out << … << std::endl`, each with its time, and the time of its end.
pub record Line : Type 0 where
  pub texts : List (Text × Text)
  pub end : Text

abbrev put_texts : List (Text × Text) → CppOut → CppOut
put_texts [] o = o
put_texts ((now, s) ∷ texts) o = put_texts texts (put_text now s o)

abbrev pub put_line : Line → CppOut → CppOut
put_line l o = put_endl l.end (put_texts l.texts o)

abbrev pub put_lines : List Line → CppOut → CppOut
put_lines [] o = o
put_lines (l ∷ lines) o = put_lines lines (put_line l o)

abbrev joined : List (Text × Text) → Text
joined [] = []
joined ((now, s) ∷ texts) = s ++ joined texts

abbrev first_time : List (Text × Text) → Text → Text
first_time [] end = end
first_time ((now, s) ∷ texts) end = now

abbrev pub flat : List Text → Text
flat [] = []
flat (s ∷ texts) = s ++ flat texts

-- A line on the console, and in the log.
abbrev pub console_line : Line → Text
console_line l = (first_time l.texts l.end ++ utf8 ": ") ++ (joined l.texts ++ 10 ∷ [])

abbrev pub debug_line : Line → Text
debug_line l = l.end ++ (utf8 ": " ++ joined l.texts)

-- Behind the prefix.
rest_of_line :
    (texts : List (Text × Text)) (end c s : Text) (d : List Text)
    → put_endl end (
        put_texts texts
          (record { str_debug_to_log = s; prefix_printed = true; console = c; debug = d }))
      ≡ record {
        str_debug_to_log = [];
        prefix_printed = false;
        console = c ++ (joined texts ++ 10 ∷ []);
        debug = d ++ (end ++ (utf8 ": " ++ (s ++ joined texts))) ∷ [];
      }
unfolding put_endl put_text add_prefix_if_needed
rest_of_line [] end c s d = rw (append-nil s) refl
rest_of_line ((now, t) ∷ texts) end c s d =
    rest_of_line texts end (c ++ t) (s ++ t) d ∙ simp append_assoc

abbrev pub fresh : Text → List Text → CppOut
fresh c d = record { str_debug_to_log = []; prefix_printed = false; console = c; debug = d }

line_lem :
    (texts : List (Text × Text)) (end c : Text) (d : List Text)
    → let l : Line = record { texts = texts; end = end } in
      put_line l (fresh c d) ≡ fresh (c ++ console_line l) (d ++ debug_line l ∷ [])
unfolding put_endl put_text add_prefix_if_needed
line_lem [] end c d = simp append_assoc
line_lem ((now, t) ∷ texts) end c d =
    rest_of_line texts end ((c ++ (now ++ utf8 ": ")) ++ t) t d ∙ simp append_assoc

-- Whatever texts are written, statement by statement: the console gets one time stamp for each line, at
-- its beginning, and the log gets each line once, when it ends, without what stood before it.
pub lines_lem :
    (lines : List Line) (c : Text) (d : List Text)
    → put_lines lines (fresh c d)
      ≡ fresh (c ++ flat (map console_line lines)) (d ++ map debug_line lines)
lines_lem [] c d = simp append-nil
lines_lem (l ∷ lines) c d =
    ap (put_lines lines) (line_lem l.texts l.end c d)
    ∙ lines_lem lines (c ++ console_line l) (d ++ debug_line l ∷ [])
    ∙ simp append_assoc
