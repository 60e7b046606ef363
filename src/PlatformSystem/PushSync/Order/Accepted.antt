-- ===== src/PlatformSystem/PushSync/Order/Accepted.antt =====
-- What holds of the operations that `parseReplayRequestBody` of pushSync/api/router.ts accepts.
use modula_backend.Common.{
  ℕ, suc, ◌≤◌, Bool, true, false, not, ◌||◌, ◌≡◌, refl, sym, ap, subst, ◌∙◌, Option, List, [], ◌∷◌,
  Text, ◌==◌, eq_iff, leb, ltb, Result, ok, arith, error_if, or_error, is_some, find_row, length,
  ok-injective,
}
use modula_backend.Common.Steps.{◌>>=◌, ◌>>◌, >>=-invert, error_if_passed}
use modula_backend.PosOperation.CashSession.Guards.{matches}
use modula_backend.PlatformSystem.PushSync.Rows.{ActorScope, ReplayOperation}
use modula_backend.PlatformSystem.PushSync.Request.{
  RequestError, payload_invalid, operation_not_supported, context_mismatch, RawBody, RawOperation,
  parse_optional_device_id, parse_operation, parse_operations, uuid_or, assert_uuid,
  normalize_optional, uuid_pattern, operation_types, assert_operation_type, parse_operation_context,
  parse_depends_on, parse_occurred_at,
}
use modula_backend.PlatformSystem.PushSync.Order.{
  validate_operation_dependency_order, parse_replay_request_body,
}
use modula_backend.PlatformSystem.PushSync.Order.Valid.{
  InOrder, validate_operation_dependency_order_iff,
}

not-false : (b : Bool) → not b ≡ false → b ≡ true
not-false true h = refl
not-false false h = cc

or_false : (a b : Bool) → (a || b) ≡ false → (a ≡ false) × (b ≡ false)
or_false true b h = cc
or_false false b h = (refl, h)

assert_uuid-matches :
    (o : Option Text) (t : Text) → assert_uuid o ≡ ok t → matches uuid_pattern t ≡ true
unfolding assert_uuid
assert_uuid-matches o t h =
    let (n, e, k) =
      >>=-invert (or_error (normalize_optional o) payload_invalid)
        (λ n. error_if (not (matches uuid_pattern n)) payload_invalid >> ok n) t h in
    let (u, passed, same) =
      >>=-invert (error_if (not (matches uuid_pattern n)) payload_invalid) (λ _. ok n) t k in
    subst (λ s. matches uuid_pattern s ≡ true) (ok-injective same)
      (not-false _ (error_if_passed _ payload_invalid u passed))

abbrev pub is_supported : Text → Bool
is_supported t = is_some (find_row (λ s. s == t) operation_types)

assert_operation_type-supported :
    (o : Option Text) (t : Text) → assert_operation_type o ≡ ok t → is_supported t ≡ true
unfolding assert_operation_type
assert_operation_type-supported o t h =
    let (n, e, k) =
      >>=-invert (or_error (normalize_optional o) payload_invalid)
        (λ n. error_if (not (is_supported n)) operation_not_supported >> ok n) t h in
    let (u, passed, same) =
      >>=-invert (error_if (not (is_supported n)) operation_not_supported) (λ _. ok n) t k in
    subst (λ s. is_supported s ≡ true) (ok-injective same)
      (not-false _ (error_if_passed _ operation_not_supported u passed))

-- The context of an operation is the caller's.
parse_operation_context-own :
    (raw_tenant raw_branch : Option Text) (actor : ActorScope) (tb : Text × Text)
    → parse_operation_context raw_tenant raw_branch actor ≡ ok tb
    → (tb.0 ≡ actor.tenant_id) × (tb.1 ≡ actor.branch_id)
unfolding parse_operation_context
parse_operation_context-own raw_tenant raw_branch actor tb h =
    let check : Text → Text → Result RequestError (Text × Text) = λ t b.
      error_if (not (t == actor.tenant_id) || not (b == actor.branch_id)) context_mismatch
      >> ok (t, b) in
    let (t, e, k) =
      >>=-invert (uuid_or (normalize_optional raw_tenant) actor.tenant_id)
        (λ t. uuid_or (normalize_optional raw_branch) actor.branch_id >>= λ b. check t b) tb h in
    let (b, e', k') =
      >>=-invert (uuid_or (normalize_optional raw_branch) actor.branch_id) (λ b. check t b) tb k in
    let (u, passed, same) =
      >>=-invert
        (error_if (not (t == actor.tenant_id) || not (b == actor.branch_id)) context_mismatch)
        (λ _. ok (t, b)) tb k' in
    let (own_t, own_b) = or_false _ _ (error_if_passed _ context_mismatch u passed) in
    let pair = ok-injective same in
    (
      sym (ap (λ p. p.0) pair) ∙ (eq_iff t actor.tenant_id).0 (not-false _ own_t),
      sym (ap (λ p. p.1) pair) ∙ (eq_iff b actor.branch_id).0 (not-false _ own_b),
    )

-- An operation of a request, at its place.
pub record OperationAccepted {P : Type 0} (hash : P → Text) (actor : ActorScope) (i : ℕ)
    (op : ReplayOperation P) : Type 0 where
  pub at : op.index ≡ i
  pub id : matches uuid_pattern op.client_op_id ≡ true
  pub type : is_supported op.operation_type ≡ true
  pub tenant : op.tenant_id ≡ actor.tenant_id
  pub branch : op.branch_id ≡ actor.branch_id
  pub hashed : op.payload_hash ≡ hash op.payload

module _ {P : Type 0} (hash : P → Text) (parse_date : Text → Option ℕ) (actor : ActorScope) where
  parse_operation-Accepted :
      (raw : Option (RawOperation P)) (i : ℕ) (device : Option Text) (op : ReplayOperation P)
      → parse_operation hash parse_date actor raw i device ≡ ok op
      → OperationAccepted hash actor i op
  unfolding parse_operation
  parse_operation-Accepted raw i device op h =
      let (value, e0, h0) = >>=-invert (or_error raw payload_invalid) _ op h in
      let (id, e1, h1) = >>=-invert (assert_uuid value.client_op_id) _ op h0 in
      let (type, e2, h2) = >>=-invert (assert_operation_type value.operation_type) _ op h1 in
      let (context, e3, h3) =
        >>=-invert (parse_operation_context value.tenant_id value.branch_id actor) _ op h2 in
      let (own_device, e4, h4) = >>=-invert (parse_optional_device_id value.device_id) _ op h3 in
      let (deps, e5, h5) = >>=-invert (parse_depends_on value.depends_on id) _ op h4 in
      let (occurred, e6, h6) =
        >>=-invert (parse_occurred_at hash parse_date actor value.occurred_at) _ op h5 in
      let (payload, e7, h7) = >>=-invert (or_error value.payload payload_invalid) _ op h6 in
      let own = parse_operation_context-own _ _ actor context e3 in
      subst (OperationAccepted hash actor i) (ok-injective h7) (record {
        at = refl;
        id = assert_uuid-matches _ id e1;
        type = assert_operation_type-supported _ type e2;
        tenant = own.0;
        branch = own.1;
        hashed = refl;
      })

  -- The operations from place `i` on.
  abbrev pub AcceptedFrom : ℕ → List (ReplayOperation P) → Type 0
  AcceptedFrom i [] = Unit
  AcceptedFrom i (op ∷ ops) = OperationAccepted hash actor i op × AcceptedFrom (suc i) ops

  parse_operations-Accepted :
      (raw : List (Option (RawOperation P))) (i : ℕ) (device : Option Text)
      (ops : List (ReplayOperation P))
      → parse_operations hash parse_date actor raw i device ≡ ok ops
      → AcceptedFrom i ops × (length ops ≡ length raw)
  unfolding parse_operations
  parse_operations-Accepted [] i device ops h =
      subst (λ l. AcceptedFrom i l × (length l ≡ 0)) (ok-injective h) (tt, refl)
  parse_operations-Accepted (raw ∷ rest) i device ops h =
      let (op, e, h1) = >>=-invert (parse_operation hash parse_date actor raw i device) _ ops h in
      let (others, e', h2) =
        >>=-invert (parse_operations hash parse_date actor rest (suc i) device) _ ops h1 in
      let (accepted, same) = parse_operations-Accepted rest (suc i) device others e' in
      subst (λ l. AcceptedFrom i l × (length l ≡ suc (length rest))) (ok-injective h2)
        ((parse_operation-Accepted raw i device op e, accepted), ap (λ n. suc n) same)

  -- What a request is replayed with.
  pub record RequestAccepted (ops : List (ReplayOperation P)) : Type 0 where
    pub some_operation : 1 ≤ length ops
    pub at_most_hundred : length ops ≤ 100
    pub each : AcceptedFrom 0 ops
    pub ordered : InOrder ops

  above_zero : (n : ℕ) → leb n 0 ≡ false → 1 ≤ n
  above_zero n h = ground arith

  below_limit : (n : ℕ) → ltb 100 n ≡ false → n ≤ 100
  below_limit n h = ground arith

  -- A request that is accepted has one to a hundred operations, numbered from 0, each with a UUID for its
  -- id, a supported type, the caller's own tenant and branch and the hash of its payload; the ids are
  -- different, and every dependency in the batch stands before the operation that names it.
  pub parse_replay_request_body-Accepted :
      (body : Option (RawBody P)) (ops : List (ReplayOperation P)) (halt : Bool)
      → parse_replay_request_body hash parse_date actor body ≡ ok (ops, halt)
      → RequestAccepted ops
  unfolding parse_replay_request_body
  parse_replay_request_body-Accepted body ops halt h =
      let (value, e0, h0) = >>=-invert (or_error body payload_invalid) _ (ops, halt) h in
      let (device, e1, h1) =
        >>=-invert (parse_optional_device_id value.device_id) _ (ops, halt) h0 in
      let (raw, e2, h2) = >>=-invert (or_error value.operations payload_invalid) _ (ops, halt) h1 in
      let (u3, e3, h3) =
        >>=-invert (error_if (leb (length raw) 0) payload_invalid) _ (ops, halt) h2 in
      let (u4, e4, h4) =
        >>=-invert (error_if (ltb 100 (length raw)) payload_invalid) _ (ops, halt) h3 in
      let (parsed, e5, h5) =
        >>=-invert (parse_operations hash parse_date actor raw 0 device) _ (ops, halt) h4 in
      let (u6, e6, h6) = >>=-invert (validate_operation_dependency_order parsed) _ (ops, halt) h5 in
      let (each, same) = parse_operations-Accepted raw 0 device parsed e5 in
      subst RequestAccepted (ap (λ p. p.0) (ok-injective h6)) (record {
        some_operation =
            subst (λ n. 1 ≤ n) (sym same) (above_zero _ (error_if_passed _ payload_invalid u3 e3));
        at_most_hundred =
            subst (λ n. n ≤ 100) (sym same)
              (below_limit _ (error_if_passed _ payload_invalid u4 e4));
        each = each;
        ordered = (validate_operation_dependency_order_iff parsed).0 e6;
      })
