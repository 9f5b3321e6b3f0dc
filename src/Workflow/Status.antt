-- ===== src/Workflow/Status.antt =====
-- The run's states and `_TRANSITIONS` (agents/supervisor.py).
use creditlens.Base.{ℕ, Bool, List, [], ◌∷◌, map, ◌==◌, contains}

pub data RunStatus : Type 0 where
  received authorized denied validating_case planning need_more_info : RunStatus
  data_quality_blocked executing synthesizing failed challenging auditing : RunStatus
  human_review reporting rework completed : RunStatus

-- A number for each state, by which states are compared.
unfoldable pub code : RunStatus → ℕ
code received = 0
code authorized = 1
code denied = 2
code validating_case = 3
code planning = 4
code need_more_info = 5
code data_quality_blocked = 6
code executing = 7
code synthesizing = 8
code failed = 9
code challenging = 10
code auditing = 11
code human_review = 12
code reporting = 13
code rework = 14
code completed = 15

unfoldable pub same_status : RunStatus → RunStatus → Bool
unfolding code
same_status a b = code a == code b

-- `_TRANSITIONS`; a state that is no key of it has no target.
unfoldable pub targets : RunStatus → List RunStatus
targets received = authorized ∷ denied ∷ []
targets authorized = validating_case ∷ []
targets validating_case = planning ∷ need_more_info ∷ data_quality_blocked ∷ []
targets planning = executing ∷ []
targets executing = synthesizing ∷ failed ∷ []
targets synthesizing = challenging ∷ []
targets challenging = auditing ∷ []
targets auditing = human_review ∷ reporting ∷ need_more_info ∷ []
targets human_review = reporting ∷ rework ∷ []
targets rework = human_review ∷ planning ∷ []
targets reporting = completed ∷ failed ∷ []
targets _ = []

-- `new_status in _TRANSITIONS.get(run.status, set())`
unfoldable pub allowed : RunStatus → RunStatus → Bool
unfolding code targets
allowed from to = contains (code to) (map code (targets from))
