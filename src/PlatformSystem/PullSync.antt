-- ===== src/PlatformSystem/PullSync.antt =====
-- modules/v0/platformSystem/pullSync: the feed of changes that clients read page by page (app/service.ts and
-- infra/repository.ts). The rows of v0_sync_changes stand in the order of their sequence, which is unique; an
-- insertion brings the sequence that the database has drawn for it. The hash of the module scopes is an
-- argument.
pub mod Sequences
pub mod Paging
mod Tests
use modula_backend.Common.{
  ℕ, zero, suc, ◌+◌, Bool, true, false, not, ◌&&◌, ◌||◌, Option, none, some, List, [], ◌∷◌, ◌++◌,
  Text, ◌==◌, ltb, leb, length, take, select, find_row, update_rows, is_some, if◌then◌else◌,
}

pub data ChangeOperation : Type 0 where
  upsert tombstone : ChangeOperation

pub record ChangeRow (D : Type 0) : Type 0 where
  pub sequence : ℕ
  pub tenant_id : Text
  pub branch_id : Text
  pub account_id : Option Text
  pub module_key : Text
  pub entity_type : Text
  pub entity_id : Text
  pub operation : ChangeOperation
  pub revision : Text
  pub content : Option D
  pub changed_at : ℕ
  pub source_outbox_id : Option Text

-- Who reads which modules.
pub record Reader : Type 0 where
  pub account_id : Text
  pub tenant_id : Text
  pub branch_id : Text
  pub module_scopes : List Text

pub record CheckpointRow : Type 0 where
  pub account_id : Text
  pub device_id : Text
  pub tenant_id : Text
  pub branch_id : Text
  pub module_scope_hash : Text
  pub last_sequence : ℕ

abbrev pub is_for : Option Text → Text → Bool
is_for none account = true
is_for (some a) account = a == account

abbrev pub is_in_scope : List Text → Text → Bool
is_in_scope [] key = true
is_in_scope (s ∷ scopes) key = is_some (find_row (λ t. t == key) (s ∷ scopes))

-- `none` stands for a number that is not finite, `some` for its floor, 0 where that is below.
unfoldable pub normalize_limit : Option ℕ → ℕ
normalize_limit none = 200
normalize_limit (some zero) = 200
normalize_limit (some (suc n)) = if ltb 1000 (suc n) then 1000 else suc n

module _ {D : Type 0} where
  unfoldable pub may_see : Reader → ChangeRow D → Bool
  may_see reader r =
      (r.tenant_id == reader.tenant_id && r.branch_id == reader.branch_id)
      && (is_for r.account_id reader.account_id && is_in_scope reader.module_scopes r.module_key)

  unfoldable pub append_change : ChangeRow D → List (ChangeRow D) → List (ChangeRow D)
  append_change r [] = r ∷ []
  append_change r (x ∷ rows) =
      let rest = append_change r rows in
      if ltb r.sequence x.sequence then r ∷ x ∷ rows else x ∷ rest

  -- The visible changes after a sequence, in order.
  abbrev pub changes_after : Reader → ℕ → List (ChangeRow D) → List (ChangeRow D)
  changes_after reader sequence rows =
      select (λ r. may_see reader r && ltb sequence r.sequence) rows

  unfoldable pub list_changes_after_sequence :
      Reader → ℕ → ℕ → List (ChangeRow D) → List (ChangeRow D)
  list_changes_after_sequence reader sequence limit rows =
      take limit (changes_after reader sequence rows)

  -- `changes[changes.length - 1].sequence`, or the cursor.
  abbrev pub last_sequence : List (ChangeRow D) → ℕ → ℕ
  last_sequence [] cursor = cursor
  last_sequence (r ∷ rows) cursor = last_sequence rows r.sequence

pub record Page (D : Type 0) : Type 0 where
  pub changes : List (ChangeRow D)
  pub has_more : Bool
  pub next_cursor_sequence : ℕ

module _ {D : Type 0} where
  abbrev pub page_of : ℕ → ℕ → List (ChangeRow D) → Page D
  page_of cursor limit rows =
      let has_more = ltb limit (length rows) in
      let changes = if has_more then take limit rows else rows in
      record {
        changes = changes;
        has_more = has_more;
        next_cursor_sequence = last_sequence changes cursor;
      }

  unfoldable pub pull : Reader → Option ℕ → ℕ → List (ChangeRow D) → Page D
  pull reader limit cursor rows =
      let normalized = normalize_limit limit in
      page_of cursor normalized (list_changes_after_sequence reader cursor (suc normalized) rows)

abbrev pub same_checkpoint : CheckpointRow → CheckpointRow → Bool
same_checkpoint c r =
    ((r.account_id == c.account_id && r.device_id == c.device_id)
      && (r.tenant_id == c.tenant_id && r.branch_id == c.branch_id))
    && r.module_scope_hash == c.module_scope_hash

abbrev pub upserted : Option CheckpointRow → CheckpointRow → List CheckpointRow → List CheckpointRow
upserted none c rows = rows ++ (c ∷ [])
upserted (some r) c rows =
    update_rows (same_checkpoint c) (λ x. record x { last_sequence = c.last_sequence }) rows

unfoldable pub upsert_checkpoint : CheckpointRow → List CheckpointRow → List CheckpointRow
upsert_checkpoint c rows = upserted (find_row (same_checkpoint c) rows) c rows

unfoldable pub get_checkpoint : CheckpointRow → List CheckpointRow → Option CheckpointRow
get_checkpoint c rows = find_row (same_checkpoint c) rows
