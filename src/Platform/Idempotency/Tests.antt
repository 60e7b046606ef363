-- ===== src/Platform/Idempotency/Tests.antt =====
-- Runs of the idempotency service on small tables, and the theorems at these inputs.
use modula_backend.Common.{
  ℕ, suc, ◌+◌, ◌≤◌, ◌≡◌, refl, none, some, [], ◌∷◌, Text, codes, ok, err, Action, trim, ◌==◌, arith,
  true, false, Bool, leb, length, inr,
}
use modula_backend.Json.{Json, Fields, num, null, obj, field, end}
use modula_backend.Json.Stable.{IsOrder, hash_json_payload, same_obj, same_field, same_end, swapped}
use modula_backend.Platform.Idempotency.Canonical.{execute-SameJson}
use modula_backend.Platform.Idempotency.Records.{
  Db, StartInput, find_existing, new_record, insert_record, try_start, complete, clear_processing,
  has_identity,
}
use modula_backend.Platform.Idempotency.Service.{
  Response, ExecuteInput, branch, settle, apply_and_complete, answer_existing, run_started,
  start_input, execute, normalize_idempotency_key, build_scope_fingerprint,
}
use modula_backend.Platform.Idempotency.Invariant.{IsValid}
use modula_backend.Platform.Idempotency.Replay.{execute-replays, execute-thrown}
use modula_backend.Platform.Idempotency.Interleaving.{
  running, System, Reach, here, next, start, return, commit, idle, count_key, count_running,
}
use modula_backend.Platform.Idempotency.Exclusion.{Reach-at_most_once}
use modula_backend.Platform.Idempotency.Scope.{build_scope_fingerprint-injective}

-- The rest of the database is a counter; a command's payload is its own hash.
abbrev hash : Text → Text
hash p = p

abbrev input : ExecuteInput Text
input = record {
  idempotency_key = some (codes " k1 ");
  action_key = codes "cash.open";
  scope = branch;
  tenant_id = some (codes "t1");
  branch_id = some (codes "b1");
  payload = codes "p";
}

abbrev empty : Db ℕ
empty = record { records = []; next_id = 0; world = 7 }

abbrev add_one : Action ℕ ℕ Response
add_one n = (ok (record { status_code = 201; body = num (codes "1") }), suc n)

abbrev fail : Action ℕ ℕ Response
fail n = (err 5, n)

abbrev started : StartInput
started = record {
  scope_fingerprint = codes "t1::b1";
  tenant_id = codes "t1";
  branch_id = some (codes "b1");
  action_key = codes "cash.open";
  idempotency_key = codes "k1";
  payload_hash = codes "p";
}

empty-IsValid : IsValid empty
empty-IsValid = record { ids_below = tt; keys_unique = tt }

accepted : start_input {E = ℕ} hash input ≡ ok started
unfolding start_input normalize_idempotency_key build_scope_fingerprint trim
accepted = refl

second_is_not_run :
    (execute hash input none add_one (execute hash input none add_one empty).1).1.world ≡ 8
unfolding execute start_input normalize_idempotency_key build_scope_fingerprint trim run_started
    apply_and_complete settle try_start insert_record new_record find_existing complete has_identity
    answer_existing ◌==◌
second_is_not_run = refl

execute-replays_example : execute hash input none fail (execute hash input none add_one empty).1 ≡ (
  ok (record { status_code = 201; body = num (codes "1"); replayed = true }),
  (execute hash input none add_one empty).1,
)
unfolding execute start_input normalize_idempotency_key build_scope_fingerprint trim run_started
    apply_and_complete settle try_start find_existing
execute-replays_example =
    execute-replays hash input none none add_one fail empty
      (record { status_code = 201; body = num (codes "1"); replayed = false }) refl (λ e. cc)

-- The handler adds one, and the update that records its response is refused with the error 9: the key is free again,
-- and a second call adds one once more.
execute-thrown_example :
    (execute hash input (some 9) add_one empty).1 ≡ record { records = []; next_id = 1; world = 8 }
unfolding execute start_input normalize_idempotency_key build_scope_fingerprint trim run_started
    apply_and_complete settle try_start find_existing
execute-thrown_example = execute-thrown hash input (some 9) add_one empty 9 empty-IsValid refl

applied_again :
    (execute hash input none add_one (execute hash input (some 9) add_one empty).1).1.world ≡ 9
unfolding execute start_input normalize_idempotency_key build_scope_fingerprint trim run_started
    apply_and_complete settle try_start insert_record new_record find_existing complete has_identity
    clear_processing answer_existing ◌==◌
applied_again = refl

abbrev answer_one : Response
answer_one = record { status_code = 201; body = null }

-- One request that starts, returns and is recorded.
abbrev begun : System ℕ
begun = record (idle 7) {
  db = (try_start started (idle 7).db).1;
  runs = running (new_record started 0) ∷ [];
}

abbrev after_one : System ℕ
after_one = record begun {
  db = (settle {E = ℕ} (new_record started 0) (record begun.db { world = 8 }) (ok answer_one, 8)).1;
  runs = [];
  applied = new_record started 0 ∷ [];
}

after_one-reached : Reach ℕ (idle 7) after_one
unfolding find_existing new_record try_start
after_one-reached =
    next
      (next (next here (start started (new_record started 0) refl))
        (return [] [] (new_record started 0) answer_one 8 refl))
      (commit [] [] (new_record started 0) answer_one refl)

Reach-at_most_once_example :
    count_running (codes "t1::b1") (codes "cash.open") (codes "k1") after_one.runs
      + count_key (codes "t1::b1") (codes "cash.open") (codes "k1") after_one.applied
    ≤ 1 + count_key (codes "t1::b1") (codes "cash.open") (codes "k1") after_one.lost
Reach-at_most_once_example =
    Reach-at_most_once ℕ 7 after_one after_one-reached (codes "t1::b1") (codes "cash.open")
      (codes "k1")

build_scope_fingerprint-injective_example :
    (codes "t1" ≡ codes "t1") × (some (codes "b1") ≡ some (codes "b1"))
unfolding build_scope_fingerprint
build_scope_fingerprint-injective_example =
    build_scope_fingerprint-injective (codes "t1") (codes "t1") (some (codes "b1"))
      (some (codes "b1")) (omega arith) (omega arith) (λ e. ground arith) (λ e. ground arith) refl

-- Keys in the order of their lengths.
abbrev shorter : Text → Text → Bool
shorter k l = leb (length k) (length l)

later_total : (a b : ℕ) → leb a b ≡ false → leb b a ≡ true
later_total a b h = ground arith

later_transitive : (a b c : ℕ) → leb a b ≡ true → leb b c ≡ true → leb a c ≡ true
later_transitive a b c h h' = ground arith

shorter-IsOrder : IsOrder shorter
shorter-IsOrder = record {
  total = λ k l h. later_total (length k) (length l) h;
  transitive = λ k l m h h'. later_transitive (length k) (length l) (length m) h h';
}

abbrev body_of : Fields → Json
body_of fs = obj (field (codes "line") (obj fs) end)

abbrev one_way : Fields
one_way = field (codes "id") (num (codes "1")) (field (codes "qty") (num (codes "2")) end)

abbrev other_way : Fields
other_way = field (codes "qty") (num (codes "2")) (field (codes "id") (num (codes "1")) end)

abbrev json_input : ExecuteInput Json
json_input = record {
  idempotency_key = some (codes "k1");
  action_key = codes "cash.open";
  scope = branch;
  tenant_id = some (codes "t1");
  branch_id = some (codes "b1");
  payload = null;
}

execute-SameJson_example :
    execute
      (hash_json_payload hash shorter hash)
      (record json_input { payload = body_of one_way })
      none
      add_one
      empty
    ≡ execute
        (hash_json_payload hash shorter hash)
        (record json_input { payload = body_of other_way })
        none
        add_one
        empty
execute-SameJson_example =
    execute-SameJson hash shorter hash shorter-IsOrder json_input (body_of one_way)
      (body_of other_way) none add_one empty
      (same_obj (same_field (same_obj (swapped (inr refl))) same_end))
