-- ===== src/Repository/Query/Answers.antt =====
-- What `Query` gives for a grouping that the validation accepts (internal/repository/query.go).
use chronometrics.Common.{
  ℕ, ◌≡◌, refl, sym, subst, ap, ◌∙◌, ◌⊎◌, inl, inr, true, false, Bool-cases, Option, some, List, [],
  ◌∷◌, ◌++◌, map, Text, txt, text_eq, eq_of_text_eq, arith,
}
use chronometrics.Errors.{Error, sentinel, wrapped, err_query_timeout}
use chronometrics.Domain.Json.{Platform, Result, ok, err}
use chronometrics.Domain.Query.{QueryParams, GroupResult, MetricResult, valid_group_by}
use chronometrics.Repository.Query.{
  Statement, by_channel, by_campaign_id, by_hour, by_day, group_statement, Answer, failed, rows,
  scan_groups, grouped, result_of, with_totals, totalled, query,
}

-- The grouping that each statement is for.
pub data GroupedBy : Text → Statement → Type 0 where
  channel : GroupedBy (txt "channel") by_channel
  campaign_id : GroupedBy (txt "campaign_id") by_campaign_id
  hour : GroupedBy (txt "hour") by_hour
  day : GroupedBy (txt "day") by_day

-- A call of the database failed, and that gave the error: the timeout if the deadline had passed, and
-- else the database's error behind a message.
abbrev pub CallFails : {A : Type 0} → Text → Answer A → Error → Type 0
CallFails message a e =
    (x : Error) × (((a ≡ failed x true) × (e ≡ sentinel err_query_timeout))
      ⊎ ((a ≡ failed x false) × (e ≡ wrapped message x)))

-- The counts were read: zeros without a row, or those of the first row.
abbrev pub Counted : Answer (ℕ × ℕ) → ℕ → ℕ → Type 0
Counted totals n u =
    (scans : List (Result (ℕ × ℕ))) × (ignored : Option Error) × (totals ≡ rows scans ignored)
    × (((scans ≡ []) × (n ≡ 0) × (u ≡ 0))
        ⊎ ((rest : List (Result (ℕ × ℕ))) × (scans ≡ ok (n, u) ∷ rest)))

-- The first row of the totals could not be scanned.
abbrev pub TotalsUnread : Answer (ℕ × ℕ) → Error → Type 0
TotalsUnread totals e =
    (x : Error) × (rest : List (Result (ℕ × ℕ))) × (ignored : Option Error) × (totals
      ≡ rows (err x ∷ rest) ignored)
    × (e ≡ wrapped (txt "scan totals") x)

-- Some row of the groups, after others that were, could not be scanned.
abbrev pub GroupUnread : Answer GroupResult → Error → Type 0
GroupUnread a e =
    (x : Error) × (before : List GroupResult) × (rest : List (Result GroupResult))
    × (ignored : Option Error) × (a ≡ rows (map ok before ++ err x ∷ rest) ignored)
    × (e ≡ wrapped (txt "scan group row") x)

scan_groups-cases :
    (scans : List (Result GroupResult))
    → ((groups : List GroupResult) × (scan_groups scans ≡ ok groups) × (scans ≡ map ok groups))
      ⊎ ((x : Error) × (before : List GroupResult) × (rest : List (Result GroupResult))
          × (scan_groups scans ≡ err (wrapped (txt "scan group row") x))
          × (scans ≡ map ok before ++ err x ∷ rest))
unfolding scan_groups
scan_groups-cases [] = inl ([], refl, refl)
scan_groups-cases (err e ∷ rest) = inr (e, [], rest, refl, refl)
scan_groups-cases (ok g ∷ scans) = elim (scan_groups-cases scans) [
  | inl (gs, h, k) ↦ inl (g ∷ gs, rw h refl, rw k refl)
  | inr (x, before, rest, h, k) ↦ inr (x, g ∷ before, rest, rw h refl, rw k refl)
]

-- An accepted grouping has its statement.
group_statement-GroupedBy :
    (g : Text)
    → valid_group_by g ≡ true
    → text_eq g [] ≡ false
    → (s : Statement) × (group_statement g ≡ some s) × GroupedBy g s
unfolding group_statement valid_group_by
group_statement-GroupedBy g valid h = elim (Bool-cases (text_eq g (txt "channel"))) [
  | inl a ↦ (by_channel, rw a refl, named (txt "channel") by_channel a channel)
  | inr a ↦ elim (Bool-cases (text_eq g (txt "campaign_id"))) [
    | inl b ↦
        (by_campaign_id, rw (a, b) refl, named (txt "campaign_id") by_campaign_id b campaign_id)
    | inr b ↦ elim (Bool-cases (text_eq g (txt "hour"))) [
      | inl c ↦ (by_hour, rw (a, b, c) refl, named (txt "hour") by_hour c hour)
      | inr c ↦
          let d : text_eq g (txt "day") ≡ true = ground arith in
          (by_day, rw (a, b, c, d) refl, named (txt "day") by_day d day)
    ]
  ]
]
  where
    named : (name : Text) (s : Statement) → text_eq g name ≡ true → GroupedBy name s → GroupedBy g s
    named name s e k = subst (λ t. GroupedBy t s) (sym (eq_of_text_eq g name e)) k

module _ (p : Platform) (total_rows : QueryParams → Answer (ℕ × ℕ))
    (group_rows : Statement → QueryParams → Answer GroupResult) where
  -- The groups of a result: none without a grouping, or all rows of the grouping's statement.
  abbrev pub HasGroups : QueryParams → List GroupResult → Type 0
  HasGroups q groups =
      ((q.group_by ≡ []) × (groups ≡ []))
      ⊎ ((s : Statement) × (ignored : Option Error) × GroupedBy q.group_by s
          × (group_rows s q ≡ rows (map ok groups) ignored))

  -- The totals were read, and then the call of the grouping's statement failed, or one of its rows
  -- could not be scanned.
  abbrev pub GroupsFail : QueryParams → Error → Type 0
  GroupsFail q e =
      (n : ℕ) × (u : ℕ) × (s : Statement) × Counted (total_rows q) n u
      × GroupedBy q.group_by s
      × (CallFails (txt "group query") (group_rows s q) e ⊎ GroupUnread (group_rows s q) e)

  -- What `Query` promises: a whole answer, or the error of the part of its work that failed.
  abbrev pub Answers : QueryParams → Result MetricResult → Type 0
  Answers q (ok res) =
      (res.event_name ≡ q.event_name)
      × (res.from ≡ q.from)
      × (res.to ≡ q.to)
      × (res.group_by ≡ q.group_by)
      × Counted (total_rows q) res.total_count res.unique_count
      × HasGroups q res.groups
  Answers q (err e) =
      CallFails (txt "totals query") (total_rows q) e
      ⊎ TotalsUnread (total_rows q) e
      ⊎ GroupsFail q e

  grouped-Answers :
      (q : QueryParams) (n u : ℕ) (s : Statement) (a : Answer GroupResult)
      → Counted (total_rows q) n u
      → GroupedBy q.group_by s
      → group_rows s q ≡ a
      → Answers q (grouped p total_rows group_rows (result_of p total_rows group_rows q (n, u)) a)
  grouped-Answers q n u s (failed e true) h k l = inr (inr (n, u, s, h, k, inl (e, inl (l, refl))))
  grouped-Answers q n u s (failed e false) h k l = inr (inr (n, u, s, h, k, inl (e, inr (l, refl))))
  grouped-Answers q n u s (rows scans x) h k l = elim (scan_groups-cases scans) [
    | inl (gs, e, f) ↦ rw e (refl, refl, refl, refl, h, inr (s, x, k, l ∙ ap (λ y. rows y x) f))
    | inr (y, before, rest, e, f) ↦
        rw e (inr (inr (n, u, s, h, k, inr (y, before, rest, x, l ∙ ap (λ z. rows z x) f, refl))))
  ]

  with_totals-Answers :
      (q : QueryParams) (n u : ℕ)
      → valid_group_by q.group_by ≡ true
      → Counted (total_rows q) n u
      → Answers q (with_totals p total_rows group_rows q (ok (n, u)))
  with_totals-Answers q n u valid h = elim (Bool-cases (text_eq q.group_by [])) [
    | inl b ↦ rw b (refl, refl, refl, refl, h, inl (eq_of_text_eq q.group_by [] b, refl))
    | inr b ↦
        let (s, k, g) = group_statement-GroupedBy q.group_by valid b in
        rw (b, k) (grouped-Answers q n u s (group_rows s q) h g refl)
  ]

  totalled-Answers :
      (q : QueryParams) (a : Answer (ℕ × ℕ))
      → valid_group_by q.group_by ≡ true
      → total_rows q ≡ a
      → Answers q (totalled p total_rows group_rows q a)
  totalled-Answers q (failed e true) valid h = inl (e, inl (h, refl))
  totalled-Answers q (failed e false) valid h = inl (e, inr (h, refl))
  totalled-Answers q (rows [] x) valid h =
      with_totals-Answers q 0 0 valid ([], x, h, inl (refl, refl, refl))
  totalled-Answers q (rows (err e ∷ rest) x) valid h = inr (inl (e, rest, x, h, refl))
  totalled-Answers q (rows (ok (n, u) ∷ rest) x) valid h =
      with_totals-Answers q n u valid (ok (n, u) ∷ rest, x, h, inr (rest, refl))

  -- For a grouping that the validation accepts, `query` gives either the event name, the range and
  -- the grouping it was asked for, the counts of the totals' first row (zeros without one) and the
  -- groups: none without a grouping, and else exactly the rows that the statement of this grouping
  -- gave, each of them scanned, in their order; or an error: if the call for the totals failed, or
  -- after the totals were read that of the grouping's statement, the timeout where the deadline had
  -- passed and else that call's error behind "totals query" or "group query"; or, where a row could
  -- not be scanned, that error behind "scan totals", for the first row of the totals, or "scan group
  -- row". So it never refuses the grouping as unsupported, and an error of `Scan` at any row of the
  -- groups gives no partial answer.
  pub query-Answers :
      (q : QueryParams)
      → valid_group_by q.group_by ≡ true
      → Answers q (query p total_rows group_rows q)
  unfolding query
  query-Answers q valid = totalled-Answers q (total_rows q) valid refl
