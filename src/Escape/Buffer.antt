-- ===== src/Escape/Buffer.antt =====
-- The loop of `escape_string` writes the pieces into its buffer.
use tgbot_with_rest.Prelude.{
  ℕ, suc, ◌+◌, List, [], ◌∷◌, ◌++◌, ◌≡◌, refl, sym, ap, ◌∙◌, arith, leb, ◌==◌, if◌then◌else◌,
  length, length-append, set, replicate, take, append_assoc, append-nil, inl, inr, Bool-cases,
  is_empty, ◌&&◌,
}
use mathlib.Core.Path.{ap₂}
use native.Mathlib.Nat.{zero-add}
use tgbot_with_rest.Text.{Text}
use tgbot_with_rest.Escape.{
  extra, extra_space, print_u, hex4, fill_step, fill, filled, escape_string,
}
use tgbot_with_rest.Escape.Pieces.{
  string_piece, pieces, length-pieces, pieces_of_plain, length-string_piece,
}

-- A write behind what is done.
set-append :
    (done cells : List ℕ) (i v : ℕ)
    → set (done ++ cells) (length done + i) v ≡ done ++ set cells i v
set-append [] cells i v = rw zero-add
set-append (x ∷ done) cells i v =
    let e : suc (length done) + i ≡ suc (length done + i) = omega arith in
    rw e (ap (◌∷◌ x) (set-append done cells i v))

set_second :
    (done rest : List ℕ) (x y v : ℕ)
    → set (done ++ x ∷ y ∷ rest) (length done + 1) v ≡ (done ++ x ∷ v ∷ []) ++ rest
set_second done rest x y v = set-append done (x ∷ y ∷ rest) 1 v ∙ sym (append_assoc done _ rest)

set_first :
    (done rest : List ℕ) (x v : ℕ)
    → set (done ++ x ∷ rest) (length done) v ≡ (done ++ v ∷ []) ++ rest
set_first done rest x v =
    let e : length done ≡ length done + 0 = omega arith in
    rw e (set-append done (x ∷ rest) 0 v ∙ sym (append_assoc done _ rest))

print_u-append :
    (done rest : List ℕ) (c x y : ℕ)
    → set
        (print_u (length done) c (done ++ x ∷ x ∷ x ∷ x ∷ x ∷ x ∷ y ∷ rest))
        (length done + 6)
        b'\\'
      ≡ (done ++ x ∷ b'u' ∷ hex4 c) ++ b'\\' ∷ rest
print_u-append done rest c x y = simp (set-append, append_assoc)

-- The buffer behind the position: the cells for the characters to come, and the terminator.
abbrev blanks : Text → ℕ → List ℕ
blanks s last = replicate (length (pieces string_piece s)) b'\\' ++ last ∷ []

-- The terminator after a round: a `\u00XX` at the very end overwrites it by a backslash.
abbrev after : ℕ → Text → ℕ → ℕ
after c s last = if extra c == 5 && is_empty s then b'\\' else last

-- What a round is to do to the position and the cells.
abbrev Writes : ℕ → Text → Text → ℕ → Type 0
Writes c s done last =
    fill_step c (length done, done ++ blanks (c ∷ s) last)
    ≡ (length (done ++ string_piece c), (done ++ string_piece c) ++ blanks s (after c s last))

wrote :
    (done piece : Text) (n : ℕ) (cells end_ : List ℕ)
    → length piece ≡ n
    → cells ≡ (done ++ piece) ++ end_
    → ◌≡◌ {A = ℕ × List ℕ}
        (length done + n, cells)
        (length (done ++ piece), (done ++ piece) ++ end_)
wrote done piece n cells end_ h e = ap₂ (λ p q. (p, q)) (omega (arith, length-append done piece)) e

module _ (s done : Text) (last : ℕ) where
  short-Writes :
      (v : ℕ)
      → ◌≡◌ {A = ℕ × List ℕ}
          (length done + 2, set (done ++ b'\\' ∷ b'\\' ∷ blanks s last) (length done + 1) v)
          (length (done ++ b'\\' ∷ v ∷ []), (done ++ b'\\' ∷ v ∷ []) ++ blanks s last)
  short-Writes v = wrote done _ 2 _ _ refl (set_second done (blanks s last) b'\\' b'\\' v)

control-Writes :
    (s done : Text) (last c : ℕ)
    → ◌≡◌ {A = ℕ × List ℕ}
        (
          length done + 6,
          set
              (print_u (length done) c (done ++ (replicate 6 b'\\' ++ blanks s last)))
              (length done + 6)
              b'\\',
        )
        (
          length (done ++ b'\\' ∷ b'u' ∷ hex4 c),
          (done ++ b'\\' ∷ b'u' ∷ hex4 c) ++ blanks s (if is_empty s then b'\\' else last),
        )
control-Writes [] done last c = wrote done _ 6 _ _ refl (print_u-append done [] c b'\\' last)
control-Writes (d ∷ s) done last c =
    let e : length (pieces string_piece (d ∷ s)) ≡ suc (extra d + length (pieces string_piece s)) =
      omega
        (arith, length-append (string_piece d) (pieces string_piece s), length-string_piece d) in
    rw e (wrote done _ 6 _ _ refl (print_u-append done _ c b'\\' b'\\'))

fill_step-blanks : (c : ℕ) (s done : Text) (last : ℕ) → Writes c s done last
unfolding fill_step string_piece extra
fill_step-blanks c s done last = elim (Bool-cases (c == b'"')) [
  | inl e ↦ rw e (short-Writes s done last b'"')
  | inr n₀ ↦ rw n₀ (elim (Bool-cases (c == b'\\')) [
    | inl e ↦ rw e (wrote done _ 2 _ _ refl (sym (append_assoc done _ _)))
    | inr n₁ ↦ rw n₁ (elim (Bool-cases (c == b'\x08')) [
      | inl e ↦ rw e (short-Writes s done last b'b')
      | inr n₂ ↦ rw n₂ (elim (Bool-cases (c == b'\x0c')) [
        | inl e ↦ rw e (short-Writes s done last b'f')
        | inr n₃ ↦ rw n₃ (elim (Bool-cases (c == b'\n')) [
          | inl e ↦ rw e (short-Writes s done last b'n')
          | inr n₄ ↦ rw n₄ (elim (Bool-cases (c == b'\r')) [
            | inl e ↦ rw e (short-Writes s done last b'r')
            | inr n₅ ↦ rw n₅ (elim (Bool-cases (c == b'\t')) [
              | inl e ↦ rw e (short-Writes s done last b't')
              | inr n₆ ↦ rw n₆ (elim (Bool-cases (leb c 0x1f)) [
                | inl e ↦ rw e (control-Writes s done last c)
                | inr n₇ ↦ rw n₇ (wrote done _ 1 _ _ refl (set_first done (blanks s last) b'\\' c))
              ])
            ])
          ])
        ])
      ])
    ])
  ])
]

-- The terminator after the whole loop.
abbrev pub last_cell : Text → ℕ → ℕ
last_cell [] last = last
last_cell (c ∷ s) last = last_cell s (after c s last)

fill-blanks :
    (s done : Text) (last : ℕ)
    → (fill s (length done, done ++ blanks s last)).1
      ≡ (done ++ pieces string_piece s) ++ last_cell s last ∷ []
unfolding fill
fill-blanks [] done last = rw append-nil
fill-blanks (c ∷ s) done last =
    ap (λ m. (fill s m).1) (fill_step-blanks c s done last)
    ∙ (fill-blanks s (done ++ string_piece c) (after c s last)
        ∙ ap (λ l. l ++ last_cell s (after c s last) ∷ []) (append_assoc done (string_piece c) _))

-- After the loop the buffer holds the pieces of all characters, one after another, and behind them in
-- the place of the terminator `last_cell`: 0, or a backslash if the last character was written as
-- `\u00XX`.
pub filled-pieces : (s : Text) → filled s ≡ pieces string_piece s ++ last_cell s 0 ∷ []
unfolding filled
filled-pieces s =
    ap (λ n. (fill s (0, replicate n b'\\' ++ 0 ∷ [])).1) (length-pieces s) ∙ fill-blanks s [] 0

take-append : (xs ys : List ℕ) → take (length xs) (xs ++ ys) ≡ xs
take-append [] ys = refl
take-append (x ∷ xs) ys = ap (◌∷◌ x) (take-append xs ys)

-- `escape_string`, which computes a length, makes a buffer of it and writes into the buffer over what
-- `snprintf` left there, yields exactly the escapes of the characters of the text, one after another.
pub escape_string-pieces : (s : Text) → escape_string s ≡ pieces string_piece s
unfolding escape_string
escape_string-pieces s = elim (Bool-cases (extra_space s == 0)) [
  | inl e ↦ rw e (sym (pieces_of_plain s (ground (arith, length-pieces s))))
  | inr e ↦
      rw (e, length-pieces s, filled-pieces s)
        (take-append (pieces string_piece s) (last_cell s 0 ∷ []))
]
