-- ===== src/Trello/Cache/Rounds.antt =====
-- The loop of requests of `get_file` in src/trelloapi.cpp.
use tgbot_with_rest.Prelude.{
  ℕ, zero, suc, ◌+◌, ◌-◌, ◌⊎◌, ==_iff, ◌≤◌, Bool, true, false, [], ◌++◌, ◌==◌, ◌≡◌, ◌≢◌, ◌<◌, refl,
  arith, Bool-cases, inl, inr, ap, sym, ◌∙◌,
}
use native.Mathlib.Decide.{ℕ_discrete}
use tgbot_with_rest.Text.{Text}
use tgbot_with_rest.Http.{Request, Reply, is_refused, curle_couldnt_resolve_host}
use tgbot_with_rest.Trello.{Api, value}
use tgbot_with_rest.Trello.Cache.Kept.{asked}
use tgbot_with_rest.Trello.Cache.{
  Files, exists, remove_file, cache_file, file_request, attempts, Fetched, keep_fetched, fetch,
  get_file,
}

-- The rounds of the loop: at least one and at most `more + 1` more; every round but the last was
-- one in which the host was not found, and the last one was not, or no round was left.
abbrev pub Rounds : (ℕ → Reply) → ℕ → ℕ → Reply × Text × ℕ → Type 0
Rounds net more i (reply, written, n) =
    (i < n)
    × (n ≤ i + more + 1)
    × (reply ≡ net (n - 1))
    × ((j : ℕ) → i ≤ j → j + 1 < n → (net j).curl_code ≡ curle_couldnt_resolve_host)
    × ((reply.curl_code ≢ curle_couldnt_resolve_host) ⊎ (n ≡ i + more + 1))

no_rounds : (j : ℕ) → j + 1 < 0 → ⊥
no_rounds j p = omega arith

no_round : (i j : ℕ) → i ≤ j → j + 1 < suc i → ⊥
no_round i j p q = omega arith

attempts-Rounds :
    (net : ℕ → Reply) (more i : ℕ) (written : Text)
    → Rounds net more i (attempts net more i written)
unfolding attempts
attempts-Rounds net zero i written = (
  omega arith,
  omega arith,
  ap net (omega arith),
  λ j p q. elim (no_round i j p q) [ ],
  inr (omega arith),
)
attempts-Rounds net (suc more) i written =
    elim (Bool-cases ((net i).curl_code == curle_couldnt_resolve_host)) [
      | inr e ↦
          rw (e, attempts)
            (
              omega arith,
              omega arith,
              ap net (omega arith),
              λ j p q. elim (no_round i j p q) [ ],
              inl (λ h. ground arith),
            )
      | inl e ↦
          let w = written ++ (net i).answer in
          let (a, b, c, d, f) = attempts-Rounds net more (suc i) w in
          let r = attempts net more (suc i) w in
          let d' : (j : ℕ) → i ≤ j → j + 1 < r.2 → (net j).curl_code ≡ curle_couldnt_resolve_host =
            λ j p q. elim (ℕ_discrete i j) [
              | yes k ↦ rw (sym k) ((==_iff _ _).0 e)
              | no k ↦ d j (omega arith) q
            ] in
          let f' : (r.0.curl_code ≢ curle_couldnt_resolve_host) ⊎ (r.2 ≡ i + suc more + 1) =
            elim f [ inl h ↦ inl h | inr h ↦ inr (omega arith) ] in
          rw (e, attempts) (omega arith, omega arith, c, d', f')
    ]

-- What a call asks for.
abbrev pub Asks : (ℕ → Reply) → Fetched → Type 0
Asks net got =
    (got.requests ≤ 10)
    × ((j : ℕ) → j + 1 < got.requests → (net j).curl_code ≡ curle_couldnt_resolve_host)
    × ((got.requests ≡ 0)
        ⊎ ((net (got.requests - 1)).curl_code ≢ curle_couldnt_resolve_host)
        ⊎ (got.requests ≡ 10))

Rounds-Asks :
    (net : ℕ → Reply) (name : Text) (files : Files) (r : Reply × Text × ℕ)
    → Rounds net 9 0 r
    → Asks net (keep_fetched name files r)
unfolding keep_fetched
Rounds-Asks net name files (reply, written, n) (a, b, c, d, f) =
    let asks : Asks net (record { result = value name; files = files; requests = n }) = (
      omega arith,
      λ j. d j (omega arith),
      inr (elim f [
        | inl h ↦ inl (λ p. h (ap (λ r. r.curl_code) c ∙ p))
        | inr h ↦ inr (omega arith)
      ]),
    ) in
    elim (Bool-cases (is_refused reply)) [ inl e ↦ rw e asks | inr e ↦ rw e asks ]

fetch-Asks :
    (init : Bool) (net : ℕ → Reply) (name : Text) (files : Files)
    → Asks net (fetch init net name files)
unfolding fetch
fetch-Asks true net name files =
    Rounds-Asks net name files (attempts net 9 0 []) (attempts-Rounds net 9 0 [])
fetch-Asks false net name files = (omega arith, λ j p. elim (no_rounds j p) [ ], inl refl)

asked-Asks :
    (force init : Bool) (net : ℕ → Reply) (name : Text) (files : Files)
    → Asks net (asked force init net name files)
asked-Asks true init net name files = fetch-Asks init net name (remove_file name files)
asked-Asks false init net name files = (omega arith, λ j p. elim (no_rounds j p) [ ], inl refl)

module _ (sha1 : Text → Text) (api : Api) (init : Bool) (net : Request → ℕ → Reply)
    (url extension : Text) (force : Bool) (files : Files) where
  -- The loop of requests ends: a call makes at most ten, each but the last one failed to resolve the
  -- host, and the last one did not, unless it was the tenth.
  pub get_file-Asks :
      Asks (net (file_request api url)) (get_file sha1 api init net url extension force files)
  unfolding get_file
  get_file-Asks = elim (Bool-cases (exists files (cache_file sha1 url extension))) [
    | inr e ↦
        rw e (fetch-Asks init (net (file_request api url)) (cache_file sha1 url extension) files)
    | inl e ↦
        rw e
          (asked-Asks force init (net (file_request api url)) (cache_file sha1 url extension) files)
  ]
