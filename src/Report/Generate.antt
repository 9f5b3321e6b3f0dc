-- ===== src/Report/Generate.antt =====
-- `ReportAgent.generate`, `persist` and `diff_reports` (agents/report_agent.py). The integrity check
-- of the claims against their artifacts (infrastructure/postgres/artifact_integrity.py) and the
-- hash of a content are parameters.
use creditlens.Base.{
  ℕ, ◌+◌, ◌-◌, max, Bool, true, false, Option, none, some, List, [], ◌∷◌, ◌++◌, map, ◌==◌, not,
  ◌||◌, if◌then◌else◌, filter, length, find, is_empty, is_some, any,
}
use creditlens.Base.Result.{ok, err}
use creditlens.Base.Session.{Exec, modify, ◌>>=◌}
use creditlens.Base.Text.{Text, text_eq}
use creditlens.Workflow.Records.{
  Agent, Run, ClaimRecord, Locator, ArtifactRecord, EvidenceRecord, ReportClaimEntry, ReportContent,
  ReportStatus, ReportVersion, Polarity, Verdict, ReviewStatus, Db, claims_of_run, policy,
  financial, risk, challenger, auditor,
}

-- A dict by evidence identifier; the newest entry of a key stands first.
abbrev pub Locators : Type 0
Locators = List (ℕ × Locator)

unfoldable pub put_all : List (ℕ × Locator) → Locators → Locators
put_all [] d = d
put_all (e ∷ es) d = put_all es (e ∷ d)

unfoldable pub artifact_locators : List ArtifactRecord → Locators → Locators
unfolding put_all
artifact_locators [] d = d
artifact_locators (a ∷ as_) d = artifact_locators as_ (put_all a.evidence d)

unfoldable pub evidence_locators : List EvidenceRecord → Locators → Locators
evidence_locators [] d = d
evidence_locators (e ∷ es) d = evidence_locators es ((e.evidence_key, e.locator) ∷ d)

-- `locator_by_evidence`: the rows of `evidence` come after the artifacts and replace them.
unfoldable pub locator_by_evidence : ℕ → Db → Locators
unfolding artifact_locators evidence_locators
locator_by_evidence run db =
    evidence_locators (filter (λ e. e.run_id == run) db.evidence)
      (artifact_locators (filter (λ a. a.run_id == run) db.artifacts) [])

-- `[locator_by_evidence[eid] for eid in evidence_ids if eid in locator_by_evidence]`
unfoldable pub locate : Locators → List ℕ → List Locator
locate d [] = []
locate d (i ∷ is) =
    let rest = locate d is in elim (find (λ e. e.0 == i) d) [ none ↦ rest | some e ↦ e.1 ∷ rest ]

unfoldable pub is_accepted : ReviewStatus → Bool
is_accepted ReviewStatus.audited = true
is_accepted ReviewStatus.human_approved = true
is_accepted _ = false

unfoldable pub is_insufficient : Verdict → Bool
is_insufficient Verdict.insufficient_evidence = true
is_insufficient _ = false

unfoldable pub entry_of : Locators → ClaimRecord → ReportClaimEntry
unfolding locate
entry_of d c = record {
  claim_id = c.id;
  category = c.category;
  statement = c.statement;
  verdict = c.verdict;
  review_status = c.review_status;
  evidence_refs = c.supporting;
  opposing_evidence_refs = c.opposing;
  calculation_ids = c.calculations;
  evidence_locators = locate d c.supporting;
  opposing_evidence_locators = locate d c.opposing;
  source_claim_id = c.source_claim_id;
}

unfoldable pub references_of : Locators → List ClaimRecord → List (ℕ × Polarity × Locator)
unfolding locate
references_of d [] = []
references_of d (c ∷ cs) =
    map (λ l. (c.id, Polarity.supporting, l)) (locate d c.supporting)
    ++ (map (λ l. (c.id, Polarity.opposing, l)) (locate d c.opposing) ++ references_of d cs)

unfoldable pub agent_code : Agent → ℕ
agent_code policy = 0
agent_code financial = 1
agent_code risk = 2
agent_code challenger = 3
agent_code auditor = 4

-- `dict.fromkeys`: the first of equal items stays.
unfoldable pub distinct_agents : List Agent → List ℕ → List Agent
unfolding agent_code
distinct_agents [] seen = []
distinct_agents (a ∷ rest) seen =
    let later = distinct_agents rest (agent_code a ∷ seen) in
    if any (λ k. k == agent_code a) seen then distinct_agents rest seen else a ∷ later

-- The content that a run's rows give.
unfoldable pub content_of : Run → Db → ReportContent
unfolding locator_by_evidence entry_of references_of is_accepted is_insufficient distinct_agents
content_of run db =
    let claims : List ClaimRecord = claims_of_run run.id db in
    let accepted : List ClaimRecord = filter (λ c. is_accepted c.review_status) claims in
    let locators : Locators = locator_by_evidence run.id db in
    record {
      run_id = run.id;
      as_of_date = run.as_of_date;
      claims = map (entry_of locators) accepted;
      excluded_claims = length claims - length accepted;
      missing_materials =
          map (λ c. (c.statement, c.uncertainty_reason))
            (filter (λ c. is_insufficient c.verdict) claims);
      references = references_of locators accepted;
      degraded = run.degraded || not (is_empty (distinct_agents run.degraded_agents []));
      degraded_agents = distinct_agents run.degraded_agents [];
    }

unfoldable pub last_version : ℕ → List ReportVersion → ℕ
last_version run [] = 0
last_version run (v ∷ vs) = max (if v.run_id == run then v.version_no else 0) (last_version run vs)

module _ {E : Type 0} (integrity : Run → List ArtifactRecord → List ClaimRecord → Bool)
    (integrity_failed : E) (hash_content : ReportContent → Text) where
  -- The rows that are bound to each other before anything is materialised.
  unfoldable pub passes_integrity : Run → Db → Bool
  passes_integrity run db =
      integrity run (filter (λ a. a.run_id == run.id) db.artifacts) (claims_of_run run.id db)

  unfoldable pub generate : Run → Exec E Db ReportContent
  generate run db =
      if passes_integrity run db then (ok (content_of run db), db) else (err integrity_failed, db)

  unfoldable pub persist : Run → ReportContent → ReportStatus → Exec E Db (Unit {0})
  persist run content status = modify λ db. record db {
    reports =
        db.reports
        ++ record {
          run_id = run.id;
          version_no = last_version run.id db.reports + 1;
          status = status;
          content = content;
          content_hash = hash_content content;
        }
          ∷ [];
  }

  -- `_persist_report_via_agent` (agents/supervisor.py)
  unfoldable pub persist_report_via_agent : Run → ReportStatus → Exec E Db (Unit {0})
  unfolding generate persist
  persist_report_via_agent run status = do content ← generate run; persist run content status

pub data DiffAction : Type 0 where
  added changed removed : DiffAction

-- `DiffEntry`; of the detail, the statement that it is cut from.
pub record DiffEntry : Type 0 where
  pub action : DiffAction
  pub claim_id : ℕ
  pub statement : Text

-- `{c.claim_id: c for c in claims}`: a later claim replaces an earlier one of its identifier, at
-- the earlier one's place.
unfoldable pub put_entry : ReportClaimEntry → List ReportClaimEntry → List ReportClaimEntry
put_entry e [] = e ∷ []
put_entry e (x ∷ xs) = if x.claim_id == e.claim_id then e ∷ xs else x ∷ put_entry e xs

unfoldable pub collect : List ReportClaimEntry → List ReportClaimEntry → List ReportClaimEntry
unfolding put_entry
collect [] m = m
collect (e ∷ es) m = collect es (put_entry e m)

abbrev pub entry_at : ℕ → List ReportClaimEntry → Option ReportClaimEntry
entry_at i m = find (λ e. e.claim_id == i) m

unfoldable pub compare_entry : List ReportClaimEntry → ReportClaimEntry → List DiffEntry
compare_entry old entry = elim (entry_at entry.claim_id old) [
  | none ↦ record { action = added; claim_id = entry.claim_id; statement = entry.statement } ∷ []
  | some before ↦
      if text_eq before.statement entry.statement
      then []
      else record { action = changed; claim_id = entry.claim_id; statement = entry.statement } ∷ []
]

unfoldable pub compare_all : List ReportClaimEntry → List ReportClaimEntry → List DiffEntry
unfolding compare_entry
compare_all old [] = []
compare_all old (entry ∷ rest) = compare_entry old entry ++ compare_all old rest

unfoldable pub removed_from : List ReportClaimEntry → List ReportClaimEntry → List DiffEntry
removed_from new [] = []
removed_from new (entry ∷ rest) =
    let more = removed_from new rest in
    if is_some (entry_at entry.claim_id new)
    then more
    else record { action = removed; claim_id = entry.claim_id; statement = entry.statement } ∷ more

-- `ReportAgent.diff_reports`
unfoldable pub diff_reports : ReportContent → ReportContent → List DiffEntry
unfolding collect compare_all removed_from
diff_reports old new =
    let old_map = collect old.claims [] in
    let new_map = collect new.claims [] in
    compare_all old_map new_map ++ removed_from new_map old_map
