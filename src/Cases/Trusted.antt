-- ===== src/Cases/Trusted.antt =====
-- `build_trusted_context` (application/trusted_context.py). The request's identifier is given.
use creditlens.Base.{
  ℕ, Bool, true, false, Option, none, some, List, [], ◌∷◌, map, ◌&&◌, not, ◌==◌, find, is_some,
  contains, if◌then◌else◌,
}
use creditlens.Base.Result.{Result, ok, err, ◌>>=◌, ◌>>◌, raise_if}
use creditlens.Base.Text.{Text}
use creditlens.Cases.Tables.{CreditCase, CaseMembership, CaseDb, TrustedRequestContext, get_case}
use creditlens.Cases.Snapshot.{bound_versions}

pub data AccessError : Type 0 where
  -- CaseNotFoundError, also for a case of another tenant; AclDeniedError
  case_not_found acl_denied : AccessError

unfoldable pub is_not_revoked : Option ℕ → Bool
is_not_revoked none = true
is_not_revoked (some t) = false

unfoldable pub is_membership : ℕ → ℕ → CaseMembership → Bool
unfolding is_not_revoked
is_membership case user m = m.case_id == case && m.user_id == user && is_not_revoked m.revoked_at

-- No user is a request of the system itself.
unfoldable pub check_membership : ℕ → Option ℕ → List CaseMembership → Result AccessError (Unit {0})
unfolding is_membership
check_membership case none memberships = ok tt
check_membership case (some user) memberships =
    raise_if (not (is_some (find (is_membership case user) memberships))) acl_denied

-- `distinct()`
unfoldable pub distinct : List ℕ → List ℕ
distinct [] = []
distinct (i ∷ is) = let rest = distinct is in if contains i rest then rest else i ∷ rest

unfoldable pub bound_document_ids : ℕ → CaseDb → List ℕ
unfolding distinct bound_versions
bound_document_ids case db =
    distinct (map (λ v. v.document_id) (bound_versions case db.case_documents db.versions))

unfoldable pub found_case : ℕ → Option CreditCase → Result AccessError CreditCase
found_case tenant none = err case_not_found
found_case tenant (some c) = if c.tenant_id == tenant then ok c else err case_not_found

unfoldable pub context_of : ℕ → Option ℕ → Text → List ℕ → CreditCase → TrustedRequestContext
context_of request user purpose document_ids c = record {
  request_id = request;
  tenant_id = c.tenant_id;
  user_id = user;
  purpose = purpose;
  case_id = some c.id;
  borrower_entity_id = some c.borrower_entity_id;
  product_code = c.product_code;
  as_of_date = c.as_of_date;
  decision_cutoff_at = c.decision_cutoff_at;
  allowed_document_ids = document_ids;
}

unfoldable pub build_trusted_context :
    CaseDb → ℕ → ℕ → ℕ → Option ℕ → Text → Result AccessError TrustedRequestContext
unfolding get_case found_case check_membership bound_document_ids context_of
build_trusted_context db request tenant case_id user purpose = do
  c ← found_case tenant (get_case (some case_id) db)
  check_membership case_id user db.memberships
  ok (context_of request user purpose (bound_document_ids case_id db) c)
