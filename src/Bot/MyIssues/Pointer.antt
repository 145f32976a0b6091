-- ===== src/Bot/MyIssues/Pointer.antt =====
-- Handlers that use a pointer into the issues of a session, which must not change meanwhile.
use tgbot_with_rest.Prelude.{
  ℕ, ℤ, ◌==ℤ◌, true, String, List, [], ◌∷◌, Option, none, some, ◌≡◌, refl, ◌∙◌, inl, inr, get_elem?,
  get_elem?_exists, length, ◌<◌, Bool-cases, Option-cases, arith, ◌==◌,
}
use mathlib.Core.Option
use tgbot_with_rest.Text.{Text}
use tgbot_with_rest.Structures.{UserDispatcher, PgdbIssue}
use tgbot_with_rest.Sessions.{lookup, modify, touch}
use tgbot_with_rest.Sessions.Laws.{lookup-modify, ==ℤ_refl}
use tgbot_with_rest.Bot.{Bot}
use tgbot_with_rest.Bot.Monad.{
  M, done, ◌>>=◌, after, pure, branch, point_to, the_ud, read_at, modify_ud, write_at, element,
}
use tgbot_with_rest.Bot.Keeps.{Keeps, IgnoresOut}
use tgbot_with_rest.Bot.Inv.{Scope, At, At-IgnoresOut, At-modify}
use tgbot_with_rest.Bot.Points.{point_to-some, find-Inv}
use tgbot_with_rest.Bot.MyIssues.{
  IssuePointer, position_of, issue_at, index_of, get_selected_issue_id, issue_in, the_issue,
}

==_refl : (n : ℕ) → (n == n) ≡ true
==_refl n = ground arith

-- What the pointer points to is there.
abbrev pub Valid : IssuePointer → UserDispatcher → Type 0
Valid p ud =
    (ud.issues_changes ≡ p.changes)
    × ((issue : PgdbIssue) × (get_elem? ud.pgdb_issues p.position ≡ some issue))

module _ (staff : List ℤ) (sett : String → Text) (scope : Scope) (p : IssuePointer) where
  -- `uD` points to the session of the pointer.
  pub record Held (b : Bot) : Type 0 where
    pub at : At staff sett scope p.owner b
    pub ud : UserDispatcher
    pub found : lookup p.owner b.m_sessions ≡ some ud
    pub valid : Valid p ud

  pub Held-IgnoresOut : IgnoresOut Held
  Held-IgnoresOut b es h = record {
    at = At-IgnoresOut staff sett scope p.owner b es h.at;
    ud = h.ud;
    found = h.found;
    valid = h.valid;
  }

  pub the_issue-Held : Keeps Held (the_issue p)
  unfolding the_issue issue_in element
  the_issue-Held = record {
    run = λ b h.
        let (c, (issue, e)) = h.valid in
        rw (h.found, the_issue, issue_in) (rw (c, ==_refl p.changes, e) h);
  }

  pub the_ud-Held : Keeps Held the_ud
  unfolding the_ud read_at
  the_ud-Held = record { run = λ b h. rw (h.at.points, the_ud) (rw h.found h) }

  -- A write that leaves the step of the task and the issues.
  pub modify_ud-Held :
      (f : UserDispatcher → UserDispatcher)
      → ((ud : UserDispatcher)
          → ((f ud).jira_task ≡ ud.jira_task)
            × ((f ud).chat_user_tg_id ≡ ud.chat_user_tg_id)
            × ((f ud).recent_msg_ids ≡ ud.recent_msg_ids)
            × ((f ud).recent_msgs ≡ ud.recent_msgs)
            × ((f ud).pgdb_issues ≡ ud.pgdb_issues)
            × ((f ud).issues_changes ≡ ud.issues_changes))
      → Keeps Held (modify_ud f)
  unfolding modify_ud write_at
  modify_ud-Held f k = record {
    run = λ b h.
        let (t, o, i, m, x, c) = k h.ud in
        rw (h.at.points, modify_ud)
          (rw h.found (record {
            at = written b h;
            ud = f h.ud;
            found = lookup-modify p.owner p.owner f b.m_sessions ∙ rw (==ℤ_refl p.owner, h.found);
            valid = (c ∙ h.valid.0, rw x h.valid.1);
          }));
  }
    where
      written :
          (b : Bot)
          → Held b
          → At staff sett scope p.owner (record b { m_sessions = modify p.owner f b.m_sessions })
      written b h =
          At-modify staff sett scope p.owner f b
            (λ ud s.
              let (t, o, i, m, x, c) = k ud in
              record {
                authorised = rw t s.authorised;
                owner = o ∙ s.owner;
                aligned = rw (i, m) s.aligned;
              })
            h.at

  -- A second look-up of the session of the pointer.
  pub again-Held :
      {m : M (Unit {0})} (other : M (Unit {0}))
      → Keeps Held m
      → Keeps Held (point_to p.owner >>= λ found. branch found m other)
  unfolding ◌>>=◌ after branch
  again-Held {m} other k = record {
    run = λ b h. rw (point_to-some p.owner b h.ud h.found) (
        k.run _ (record {
          at = find-Inv staff sett scope p.owner b h.ud h.found h.at.own h.at.inv;
          ud = touch b.clock h.ud;
          found =
              lookup-modify p.owner p.owner (touch b.clock) b.m_sessions
              ∙ rw (==ℤ_refl p.owner, h.found);
          valid = h.valid;
        }));
  }

-- A pointer that was found is valid, and is to the session that it was looked for in.
abbrev pub Found : ℤ → UserDispatcher → Option IssuePointer → Type 0
Found owner ud none = Unit
Found owner ud (some p) = (p.owner ≡ owner) × Valid p ud

position-valid :
    (id : ℤ) (issues : List PgdbIssue) (i : ℕ)
    → position_of id issues ≡ some i
    → (issue : PgdbIssue) × (get_elem? issues i ≡ some issue)
unfolding position_of
position-valid id [] i h = absurd (ground arith)
position-valid id (x ∷ issues) i h = elim (Bool-cases (x.id ==ℤ id)) [
  | inl e ↦ (x, ground arith)
  | inr e ↦ elim (Option-cases (position_of id issues)) [
    | inl f ↦ absurd (ground arith)
    | inr (j, f) ↦ let (issue, g) = position-valid id issues j f in (issue, ground arith)
  ]
]

position_of-Found :
    (owner id : ℤ) (ud : UserDispatcher)
    → Found owner ud (
        Option.map
          (λ i. record { owner = owner; position = i; changes = ud.issues_changes })
          (position_of id ud.pgdb_issues))
position_of-Found owner id ud = elim (Option-cases (position_of id ud.pgdb_issues)) [
  | inl e ↦ rw e tt
  | inr (i, e) ↦ rw e (refl, (refl, position-valid id ud.pgdb_issues i e))
]

index_of-bound : (msg_id : ℤ) (ids : List ℤ) (i : ℕ) → index_of msg_id ids ≡ some i → i < length ids
unfolding index_of
index_of-bound msg_id [] i h = absurd (ground arith)
index_of-bound msg_id (x ∷ ids) i h = elim (Bool-cases (x ==ℤ msg_id)) [
  | inl e ↦ ground arith
  | inr e ↦ elim (Option-cases (index_of msg_id ids)) [
    | inl f ↦ absurd (ground arith)
    | inr (j, f) ↦ ground (arith, index_of-bound msg_id ids j f)
  ]
]

-- The look-up of the clicked message returns, since the two lists of messages run in step.
pub get_selected_returns :
    (owner msg_id : ℤ) (ud : UserDispatcher)
    → length ud.recent_msg_ids ≡ length ud.recent_msgs
    → (clicked : Option IssuePointer) × Found owner ud clicked
      × ((b : Bot) → get_selected_issue_id owner msg_id ud b ≡ done clicked b)
unfolding get_selected_issue_id issue_at element pure ◌>>=◌ after
get_selected_returns owner msg_id ud h = elim (Option-cases (index_of msg_id ud.recent_msg_ids)) [
  | inl e ↦ (none, tt, λ b. rw e refl)
  | inr (i, e) ↦
      let (r, f) =
        get_elem?_exists ud.recent_msgs i
          (omega (arith, h, index_of-bound msg_id ud.recent_msg_ids i e)) in
      (_, position_of-Found owner r.ms_query_row_id ud, λ b. rw (e, f) refl)
]
