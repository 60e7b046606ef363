-- ===== src/PlatformSystem/PullSync/Tests.antt =====
-- A feed of three changes, read in pages of one, and the theorems on this run.
use modula_backend.Common.{ℕ, ◌≡◌, none, some, List, [], ◌∷◌, codes, arith}
use modula_backend.PlatformSystem.PullSync.{ChangeRow, Reader, upsert, changes_after}
use modula_backend.PlatformSystem.PullSync.Paging.{pull_all, pull_all-changes_after}

abbrev change : ℕ → ChangeRow ℕ
change n = record {
  sequence = n;
  tenant_id = codes "t";
  branch_id = codes "b";
  account_id = none;
  module_key = codes "cashSession";
  entity_type = codes "session";
  entity_id = codes "s";
  operation = upsert;
  revision = codes "1";
  content = some n;
  changed_at = n;
  source_outbox_id = none;
}

abbrev reader : Reader
reader = record {
  account_id = codes "a";
  tenant_id = codes "t";
  branch_id = codes "b";
  module_scopes = [];
}

abbrev feed : List (ChangeRow ℕ)
feed = change 1 ∷ change 3 ∷ change 4 ∷ []

pull_all-changes_after_example : pull_all reader (some 1) 3 1 feed ≡ changes_after reader 1 feed
pull_all-changes_after_example =
    pull_all-changes_after reader (some 1) 1 feed (omega arith, (omega arith, (omega arith, tt)))
