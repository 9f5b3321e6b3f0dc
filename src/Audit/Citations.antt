-- ===== src/Audit/Citations.antt =====
-- A citation that passes the checks of documents is in order.
use creditlens.Base.{
  eq_of, ℕ, ◌≡◌, ◌≤◌, refl, sym, ◌∙◌, ap, subst, true, false, Option, none, some, [], ◌==◌, leb,
  ==_iff, ltb-false, leb→le, contains, find-holds, Exists, append_nil-parts, not-false, &&_true,
}
use creditlens.Base.Text.{text_eq_sound}
use creditlens.Cases.Tables.{
  DocumentVersion, ParseRun, DocumentSection, CaseDb, TrustedRequestContext, SnapshotContext,
  get_version, get_parse_run, get_section, is_withdrawn,
}
use creditlens.Audit.Artifacts.{AgentEvidenceRef}
use creditlens.Audit.Contract.{when}
use creditlens.Audit.Evidence.{
  section_codes, version_codes, parse_run_codes, frozen_run_codes, located_codes, missing_codes,
  document_codes,
}
use creditlens.Cases.Validity.{IsInForce, in_force}
use creditlens.Audit.Cited.{when_nil, IsCitation, bound-Exists, located-parts, frozen_run-parts}

module _ (trusted : TrustedRequestContext) (snapshot : Option SnapshotContext) (db : CaseDb) where
  -- What the checks of a version that is found say.
  record IsVersion (v : DocumentVersion) : Type 0 where
    own : v.tenant_id ≡ trusted.tenant_id
    in_force : IsInForce trusted.as_of_date v
    available : v.source_available_at ≤ trusted.decision_cutoff_at
    bound :
        Exists
          (λ d. (trusted.case_id ≡ some d.case_id) × (d.document_version_id ≡ v.id))
          db.case_documents

  IsVersion-parts :
      (o : Option DocumentVersion)
      → version_codes trusted snapshot db o ≡ []
      → (v : DocumentVersion) × (o ≡ some v) × IsVersion v
  unfolding version_codes
  IsVersion-parts none h = cc
  IsVersion-parts (some v) h =
      let (rest, unbound) = append_nil-parts _ (when _ _) h in
      let (rest', late) = append_nil-parts _ (when _ _) rest in
      let (foreign, outdated) = append_nil-parts (when _ _) (when _ _) rest' in
      (
        v,
        refl,
        record {
          own = eq_of v.tenant_id trusted.tenant_id (when_nil _ _ foreign);
          in_force = in_force trusted.as_of_date v (when_nil _ _ outdated);
          available =
              ltb-false trusted.decision_cutoff_at v.source_available_at (when_nil _ _ late);
          bound = bound-Exists trusted snapshot db v.id (when_nil _ _ unbound);
        },
      )

  record IsRun (version : ℕ) (p : ParseRun) : Type 0 where
    own : p.tenant_id ≡ trusted.tenant_id
    of_version : p.document_version_id ≡ version
    not_withdrawn : is_withdrawn p.activation_status ≡ false

  IsRun-parts :
      (version : ℕ) (o : Option ParseRun)
      → parse_run_codes trusted snapshot db version o ≡ []
      → (p : ParseRun) × (o ≡ some p) × IsRun version p
  unfolding parse_run_codes
  IsRun-parts version none h = cc
  IsRun-parts version (some p) h =
      let (rest, withdrawn) = append_nil-parts _ (when _ _) h in
      let (foreign, other) = append_nil-parts (when _ _) (when _ _) rest in
      (
        p,
        refl,
        record {
          own = eq_of p.tenant_id trusted.tenant_id (when_nil _ _ foreign);
          of_version = eq_of p.document_version_id version (when_nil _ _ other);
          not_withdrawn = when_nil _ _ withdrawn;
        },
      )

  record IsSection (version parse_run page : ℕ) (e : AgentEvidenceRef) (s : DocumentSection)
      : Type 0 where
    same_text : s.text_hash ≡ e.content_hash
    own : s.tenant_id ≡ trusted.tenant_id
    of_source : e.source_id ≡ s.id
    of_version : s.document_version_id ≡ version
    of_parse_run : s.parse_run_id ≡ parse_run
    first_page : s.page_start ≤ page
    last_page : page ≤ s.page_end

  IsSection-parts :
      (version parse_run page : ℕ) (s : DocumentSection) (e : AgentEvidenceRef)
      → section_codes trusted snapshot db version parse_run page s e ≡ []
      → IsSection version parse_run page e s
  unfolding section_codes
  IsSection-parts version parse_run page s e h =
      let (rest, outside) = append_nil-parts _ (when _ _) h in
      let (rest', other_run) = append_nil-parts _ (when _ _) rest in
      let (rest'', other_version) = append_nil-parts _ (when _ _) rest' in
      let (rest''', other_source) = append_nil-parts _ (when _ _) rest'' in
      let (other_text, foreign) = append_nil-parts (when _ _) (when _ _) rest''' in
      let pages =
        &&_true (leb s.page_start page) (leb page s.page_end)
          (not-false _ (when_nil _ _ outside)) in
      record {
        same_text =
            text_eq_sound s.text_hash e.content_hash (not-false _ (when_nil _ _ other_text));
        own = eq_of s.tenant_id trusted.tenant_id (when_nil _ _ foreign);
        of_source = eq_of e.source_id s.id (when_nil _ _ other_source);
        of_version = sym (eq_of version s.document_version_id (when_nil _ _ other_version));
        of_parse_run = sym (eq_of parse_run s.parse_run_id (when_nil _ _ other_run));
        first_page = leb→le _ _ pages.0;
        last_page = leb→le _ _ pages.1;
      }

  located-IsCitation :
      (i version parse_run page : ℕ) (e : AgentEvidenceRef) (o : Option DocumentSection)
      → e.section_id ≡ some i
      → e.document_version_id ≡ some version
      → e.parse_run_id ≡ some parse_run
      → e.page_number ≡ some page
      → get_section i db ≡ o
      → located_codes trusted snapshot db o version parse_run page e ≡ []
      → IsCitation trusted snapshot db e
  unfolding located_codes get_section get_version get_parse_run
  located-IsCitation i version parse_run page e none es ev ep eg found h = cc
  located-IsCitation i version parse_run page e (some s) es ev ep eg found h =
      let (rest, unfrozen) =
        append_nil-parts _ (frozen_run_codes trusted snapshot db parse_run) h in
      let (rest', run_codes) =
        append_nil-parts _
          (parse_run_codes trusted snapshot db version (get_parse_run parse_run db)) rest in
      let (own_codes, v_codes) =
        append_nil-parts (section_codes trusted snapshot db version parse_run page s e)
          (version_codes trusted snapshot db (get_version version db)) rest' in
      let of_s = IsSection-parts version parse_run page s e own_codes in
      let (v, found_v, of_v) = IsVersion-parts (get_version version db) v_codes in
      let (p, found_p, of_p) = IsRun-parts version (get_parse_run parse_run db) run_codes in
      let (frozen, is_frozen, in_snapshot) =
        frozen_run-parts trusted snapshot db parse_run unfrozen in
      let same_s = (==_iff s.id i).0 (find-holds (λ x. x.id == i) db.sections s found) in
      let same_v =
        (==_iff v.id version).0 (find-holds (λ x. x.id == version) db.versions v found_v) in
      let same_p =
        (==_iff p.id parse_run).0 (find-holds (λ x. x.id == parse_run) db.parse_runs p found_p) in
      record {
        section = s;
        version = v;
        parse_run = p;
        frozen = frozen;
        page = page;
        of_section = es ∙ ap some (sym same_s);
        of_version = ev ∙ ap some (sym same_v);
        of_parse_run = ep ∙ ap some (sym same_p);
        of_page = eg;
        of_source = of_s.of_source;
        found_section = ap (λ n. get_section n db) same_s ∙ found;
        found_version = ap (λ n. get_version n db) same_v ∙ found_v;
        found_parse_run = ap (λ n. get_parse_run n db) same_p ∙ found_p;
        same_text = of_s.same_text;
        first_page = of_s.first_page;
        last_page = of_s.last_page;
        section_of_version = of_s.of_version ∙ sym same_v;
        section_of_parse_run = of_s.of_parse_run ∙ sym same_p;
        parse_run_of_version = of_p.of_version ∙ sym same_v;
        own_section = of_s.own;
        own_version = of_v.own;
        own_parse_run = of_p.own;
        in_force = of_v.in_force;
        available = of_v.available;
        bound = of_v.bound;
        not_withdrawn = of_p.not_withdrawn;
        is_frozen = is_frozen;
        in_snapshot =
            subst (λ n. contains n frozen.allowed_parse_run_ids ≡ true) (sym same_p) in_snapshot;
      }

  pub document-IsCitation :
      (e : AgentEvidenceRef)
      → document_codes trusted snapshot db e ≡ []
      → IsCitation trusted snapshot db e
  unfolding document_codes missing_codes
  document-IsCitation e h =
      let (s, v, p, g, es, ev, ep, eg, passed) =
        located-parts e.section_id e.document_version_id e.parse_run_id e.page_number e.content_hash
          trusted snapshot db
          (λ s v p g. located_codes trusted snapshot db (get_section s db) v p g e) h in
      located-IsCitation s v p g e (get_section s db) es ev ep eg refl passed
