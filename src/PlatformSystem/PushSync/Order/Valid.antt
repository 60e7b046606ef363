-- ===== src/PlatformSystem/PushSync/Order/Valid.antt =====
-- Which orders `validateOperationDependencyOrder` of pushSync/api/router.ts accepts.
use modula_backend.Common.{
  ℕ, ◌<◌, false, ◌≡◌, ◌≢◌, refl, sym, subst, ◌↔◌, List, [], ◌∷◌, Text, ◌==◌, eq_iff, ok, Bool-cases,
  inl, inr, arith, error_if, is_some, All, ok-injective,
}
use modula_backend.Common.Steps.{>>=-invert, error_if_passed}
use modula_backend.PlatformSystem.PushSync.Rows.{ReplayOperation}
use modula_backend.PlatformSystem.PushSync.Request.{payload_invalid}
use modula_backend.PlatformSystem.PushSync.Order.{
  Indexes, index_of, collect_indexes, comes_late, check_depends, check_all_depends,
  validate_operation_dependency_order,
}

-- No two entries with one id.
abbrev DistinctIndexes : Indexes → Type 0
DistinctIndexes [] = Unit
DistinctIndexes (p ∷ ps) = All (λ q. q.0 ≢ p.0) ps × DistinctIndexes ps

-- The entries with the id `d` stand before `i`.
abbrev Earlier : ℕ → Text → Indexes → Type 0
Earlier i d ps = All (λ p. p.0 ≡ d → p.1 < i) ps

absent_Earlier : (i : ℕ) (d : Text) (ps : Indexes) → All (λ q. q.0 ≢ d) ps → Earlier i d ps
absent_Earlier i d [] h = tt
absent_Earlier i d (p ∷ ps) h = ((λ e. absurd (h.0 e)), absent_Earlier i d ps h.1)

late_iff :
    (i : ℕ) (d : Text) (ps : Indexes)
    → DistinctIndexes ps
    → (comes_late i (index_of d ps) ≡ false) ↔ Earlier i d ps
unfolding index_of
late_iff i d [] h = (λ _. tt, λ _. refl)
late_iff i d ((op, at) ∷ ps) h = elim (Bool-cases (op == d)) [
  | inl same ↦
      let e = (eq_iff op d).0 same in
      rw same (
        (λ k. (
          (λ _. ground arith),
          absent_Earlier i d ps (subst (λ t. All (λ q. q.0 ≢ t) ps) e h.0),
        )),
        (λ k. let low = k.0 e in ground arith),
      )
  | inr other ↦
      let ih = late_iff i d ps h.1 in
      let differs : op ≢ d = λ e. let t = (eq_iff op d).1 e in cc in
      rw other ((λ k. ((λ e. absurd (differs e)), ih.0 k)), (λ k. ih.1 k.1))
]

check_depends_iff :
    (ps : Indexes)
    → DistinctIndexes ps
    → (i : ℕ) (ds : List Text) → (check_depends ps i ds ≡ ok tt) ↔ All (λ d. Earlier i d ps) ds
unfolding check_depends
check_depends_iff ps h i [] = (λ _. tt, λ _. refl)
check_depends_iff ps h i (d ∷ ds) =
    let here = late_iff i d ps h in
    let rest = check_depends_iff ps h i ds in
    (
      (λ k.
          let (u, e, l) =
            >>=-invert (error_if (comes_late i (index_of d ps)) payload_invalid)
              (λ _. check_depends ps i ds) tt k in
          (here.0 (error_if_passed _ payload_invalid u e), rest.0 l)),
      (λ k. rw (here.1 k.0) (rest.1 k.1)),
    )

-- The entries of a batch, the latest first.
abbrev pub entries : {P : Type 0} → List (ReplayOperation P) → Indexes → Indexes
entries [] seen = seen
entries (op ∷ ops) seen = entries ops ((op.client_op_id, op.index) ∷ seen)

absent_iff : (d : Text) (ps : Indexes) → (is_some (index_of d ps) ≡ false) ↔ All (λ q. q.0 ≢ d) ps
unfolding index_of
absent_iff d [] = (λ _. tt, λ _. refl)
absent_iff d ((op, at) ∷ ps) = elim (Bool-cases (op == d)) [
  | inl same ↦ rw same ((λ k. cc), (λ k. absurd (k.0 ((eq_iff op d).0 same))))
  | inr other ↦
      let ih = absent_iff d ps in
      let differs : op ≢ d = λ e. let t = (eq_iff op d).1 e in cc in
      rw other ((λ k. (differs, ih.0 k)), (λ k. ih.1 k.1))
]

module _ {P : Type 0} where
  check_all_depends_iff :
      (ps : Indexes)
      → DistinctIndexes ps
      → (ops : List (ReplayOperation P))
      → (check_all_depends ps ops ≡ ok tt)
        ↔ All (λ op. All (λ d. Earlier op.index d ps) op.depends_on) ops
  unfolding check_all_depends
  check_all_depends_iff ps h [] = (λ _. tt, λ _. refl)
  check_all_depends_iff ps h (op ∷ ops) =
      let here = check_depends_iff ps h op.index op.depends_on in
      let rest = check_all_depends_iff ps h ops in
      (
        (λ k.
            let (u, e, l) =
              >>=-invert (check_depends ps op.index op.depends_on) (λ _. check_all_depends ps ops)
                tt k in
            (here.0 e, rest.0 l)),
        (λ k. rw (here.1 k.0) (rest.1 k.1)),
      )

  seen-DistinctIndexes :
      (ops : List (ReplayOperation P)) (seen : Indexes)
      → DistinctIndexes (entries ops seen)
      → DistinctIndexes seen
  seen-DistinctIndexes [] seen h = h
  seen-DistinctIndexes (op ∷ ops) seen h =
      (seen-DistinctIndexes ops ((op.client_op_id, op.index) ∷ seen) h).1

  collected :
      (ops : List (ReplayOperation P)) (seen idx : Indexes)
      → DistinctIndexes seen
      → collect_indexes ops seen ≡ ok idx
      → (idx ≡ entries ops seen) × DistinctIndexes (entries ops seen)
  unfolding collect_indexes
  collected [] seen idx h k = (sym (ok-injective k), h)
  collected (op ∷ ops) seen idx h k =
      let next = (op.client_op_id, op.index) ∷ seen in
      let (u, e, l) =
        >>=-invert (error_if (is_some (index_of op.client_op_id seen)) payload_invalid)
          (λ _. collect_indexes ops next) idx k in
      collected ops next idx
        ((absent_iff op.client_op_id seen).0 (error_if_passed _ payload_invalid u e), h) l

  collects :
      (ops : List (ReplayOperation P)) (seen : Indexes)
      → DistinctIndexes (entries ops seen)
      → collect_indexes ops seen ≡ ok (entries ops seen)
  unfolding collect_indexes
  collects [] seen h = refl
  collects (op ∷ ops) seen h =
      let absent = (seen-DistinctIndexes ops ((op.client_op_id, op.index) ∷ seen) h).0 in
      rw ((absent_iff op.client_op_id seen).1 absent)
        (collects ops ((op.client_op_id, op.index) ∷ seen) h)

-- The operations have different ids, and what an operation depends on, where it is in the batch, stands
-- before it.
pub record InOrder {P : Type 0} (ops : List (ReplayOperation P)) : Type 0 where
  pub distinct : DistinctIndexes (entries ops [])
  pub earlier : All (λ op. All (λ d. Earlier op.index d (entries ops [])) op.depends_on) ops

module _ {P : Type 0} (ops : List (ReplayOperation P)) where
  accepted-InOrder : validate_operation_dependency_order ops ≡ ok tt → InOrder ops
  unfolding validate_operation_dependency_order
  accepted-InOrder h =
      let (idx, e, k) = >>=-invert (collect_indexes ops []) (λ ps. check_all_depends ps ops) tt h in
      let (same, distinct) = collected ops [] idx tt e in
      record {
        distinct = distinct;
        earlier =
            (check_all_depends_iff (entries ops []) distinct ops).0
              (subst (λ ps. check_all_depends ps ops ≡ ok tt) same k);
      }

  accepts : InOrder ops → validate_operation_dependency_order ops ≡ ok tt
  unfolding validate_operation_dependency_order
  accepts o =
      rw (collects ops [] o.distinct)
        ((check_all_depends_iff (entries ops []) o.distinct ops).1 o.earlier)

  -- The check of a batch passes exactly when the operations have different ids and every dependency that
  -- is in the batch has a smaller index than the operation that names it.
  pub validate_operation_dependency_order_iff :
      (validate_operation_dependency_order ops ≡ ok tt) ↔ InOrder ops
  validate_operation_dependency_order_iff = (accepted-InOrder, accepts)
