-- ===== src/Report/Tests.antt =====
-- Two reports and their difference.
use creditlens.Base.{ℕ, ◌≡◌, refl, true, false, none, List, [], ◌∷◌, ◌&&◌, not}
use creditlens.Base.Text.{codes}
use creditlens.Workflow.Records.{ReportClaimEntry, ReportContent, ReviewStatus, Verdict}
use creditlens.Report.Generate.{diff_reports}
use creditlens.Report.Differences.{has_claim, reports, is_addition, is_removal, diff_reports-exact}

abbrev an_entry : ℕ → ReportClaimEntry
an_entry i = record {
  claim_id = i;
  category = codes "FINANCIAL";
  statement = codes "debt ratio";
  verdict = Verdict.supported;
  review_status = ReviewStatus.audited;
  evidence_refs = [];
  opposing_evidence_refs = [];
  calculation_ids = [];
  evidence_locators = [];
  opposing_evidence_locators = [];
  source_claim_id = none;
}

abbrev a_report : List ReportClaimEntry → ReportContent
a_report claims = record {
  run_id = 1;
  as_of_date = 20;
  claims = claims;
  excluded_claims = 0;
  missing_materials = [];
  references = [];
  degraded = false;
  degraded_agents = [];
}

abbrev old_report : ReportContent
old_report = a_report (an_entry 1 ∷ an_entry 2 ∷ [])

abbrev new_report : ReportContent
new_report = a_report (an_entry 2 ∷ an_entry 3 ∷ [])

diff_reports-exact_example :
    (reports is_addition 3 (diff_reports old_report new_report)
      ≡ (has_claim 3 new_report.claims && not (has_claim 3 old_report.claims)))
    × (reports is_removal 3 (diff_reports old_report new_report)
        ≡ (has_claim 3 old_report.claims && not (has_claim 3 new_report.claims)))
diff_reports-exact_example = diff_reports-exact old_report new_report 3

addition_reported : reports is_addition 3 (diff_reports old_report new_report) ≡ true
unfolding reports diff_reports is_addition
addition_reported = refl
