-- ===== src/Bot/MyIssues/Safe.antt =====
-- The list of issues keeps the invariant; the clicked button is looked up in range.
use tgbot_with_rest.Prelude.{ℕ, ◌+◌, ℤ, String, List, [], ◌∷◌, refl, length-append}
use tgbot_with_rest.Text.{Text}
use tgbot_with_rest.Structures.{UserDispatcher, PgdbIssue}
use tgbot_with_rest.Bot.World.{Answer}
use tgbot_with_rest.Bot.Monad.{M}
use tgbot_with_rest.Bot.Keeps.{
  Keeps, >>=-Keeps, >>-Keeps, skip-Keeps, get-Keeps, call-Keeps, request-Keeps, when-Keeps,
}
use tgbot_with_rest.Bot.Inv.{Scope, IsSound, At, At-IgnoresOut, modify_ud-Keeps}
use tgbot_with_rest.Bot.Rules.{say-Keeps, again-Keeps}
use tgbot_with_rest.Bot.MyIssues.{
  issue_of_row, send_issue, remember_issue, send_issues, list_issues, get_my_issues,
}

module _ (staff : List ℤ) (sett : String → Text) (scope : Scope) (id : ℤ) where
  abbrev Kept : {A : Type 0} → M A → Type 0
  Kept = Keeps (At staff sett scope id)

  send_issue-Keeps : (to : ℤ) (i : PgdbIssue) (photos : List Text) → Kept (send_issue to i photos)
  unfolding send_issue
  send_issue-Keeps to i [] = call-Keeps (At-IgnoresOut staff sett scope id) _
  send_issue-Keeps to i (photo ∷ more) =
      get-Keeps (λ b p. call-Keeps (At-IgnoresOut staff sett scope id) _)

  remember-IsSound :
      (i : PgdbIssue) (sent : Answer) (ud : UserDispatcher)
      → IsSound staff sett id ud
      → IsSound staff sett id (remember_issue i sent ud)
  unfolding remember_issue
  remember-IsSound i sent ud s = record {
    authorised = s.authorised;
    owner = s.owner;
    aligned = simp (length-append, s.aligned);
  }

  send_issues-Keeps : (to : ℤ) (p : ℕ) (rows : List (List Text)) → Kept (send_issues to p rows)
  unfolding send_issues
  send_issues-Keeps to p [] = skip-Keeps
  send_issues-Keeps to p (row ∷ rows) = get-Keeps λ b _.
      >>=-Keeps (send_issue-Keeps to (issue_of_row b.env.qt p row) _) λ sent.
        >>-Keeps
          (modify_ud-Keeps staff sett scope id _
            (remember-IsSound (issue_of_row b.env.qt p row) sent))
          (send_issues-Keeps to (p + 1) rows)

  list_issues-Keeps : (to : ℤ) → Kept (list_issues to)
  unfolding list_issues
  list_issues-Keeps to = >>=-Keeps (call-Keeps (At-IgnoresOut staff sett scope id) _) λ a.
      >>-Keeps
        (modify_ud-Keeps staff sett scope id _
          (λ ud s. record { authorised = s.authorised; owner = s.owner; aligned = refl }))
        (>>-Keeps (when-Keeps _ (λ _. send_issues-Keeps to 1 a.rows)) (
          when-Keeps _ λ _. >>-Keeps (say-Keeps (At-IgnoresOut staff sett scope id) _ _ _) (
            get-Keeps
              λ b p. when-Keeps _ λ _. request-Keeps (At-IgnoresOut staff sett scope id) _)))

  pub get_my_issues-Keeps : Kept (get_my_issues id)
  unfolding get_my_issues
  get_my_issues-Keeps = again-Keeps staff sett scope id (list_issues-Keeps id) skip-Keeps
