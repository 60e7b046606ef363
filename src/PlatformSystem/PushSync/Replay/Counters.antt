-- ===== src/PlatformSystem/PushSync/Replay/Counters.antt =====
-- The counts of a replayed batch, and where its loop ends (pushSync/api/router.ts).
use modula_backend.Common.{
  and_split, Text, ℕ, suc, ◌+◌, ◌≤◌, ◌≡◌, refl, ◌∙◌, sym, ap, Bool, true, false, ◌&&◌, none, List,
  [], ◌∷◌, ◌++◌, length, is_some, ◌↔◌, ◌≢◌, Result, ok, err, arith, ok-ne-err, ok-injective, subst,
}
use modula_backend.PlatformSystem.PushSync.Rows.{
  SyncDb, ReplayOperation, ReplayStatus, was_applied, was_duplicate, has_failed, ReplayResult,
  completed, batch_failed,
}
use modula_backend.PlatformSystem.PushSync.Repository.{FinalizeInput}
use modula_backend.PlatformSystem.PushSync.Resolution.{did_fail}
use modula_backend.PlatformSystem.PushSync.Execution.{SyncFailure}
use modula_backend.PlatformSystem.PushSync.Replay.{
  Progress, no_progress, record_result, Run, run_operation, go_on, after_operation,
  replay_operations, count_if, finalization, final_status_of,
}

abbrev pub count_status : ReplayStatus → List ReplayResult → ℕ
count_status st [] = 0
count_status st (r ∷ rs) = count_if st r.status (count_status st rs)

-- The three counts are those of the results.
pub record Counts (p : Progress) : Type 0 where
  pub applied : p.applied_count ≡ count_status was_applied p.results
  pub duplicate : p.duplicate_count ≡ count_status was_duplicate p.results
  pub failed : p.failed_count ≡ count_status has_failed p.results

count_last :
    (st : ReplayStatus) (rs : List ReplayResult) (r : ReplayResult)
    → count_status st (rs ++ (r ∷ [])) ≡ count_if st r.status (count_status st rs)
count_last st [] r = refl
count_last st (x ∷ rs) r = ground (arith, count_last st rs r)

count_sum :
    (rs : List ReplayResult)
    → count_status was_applied rs + count_status was_duplicate rs + count_status has_failed rs
      ≡ length rs
count_sum [] = refl
count_sum (r ∷ rs) = ground (arith, count_sum rs)

module _ (halt : Bool) (r : ReplayResult) (p : Progress) where
  abbrev next : ℕ → Text → Progress
  next i op = record_result halt i op r p

  next-Counts : (i : ℕ) (op : Text) → Counts p → Counts (next i op)
  unfolding record_result
  next-Counts i op c = record {
    applied =
        ap (count_if was_applied r.status) c.applied ∙ sym (count_last was_applied p.results r);
    duplicate =
        ap (count_if was_duplicate r.status) c.duplicate
        ∙ sym (count_last was_duplicate p.results r);
    failed = ap (count_if has_failed r.status) c.failed ∙ sym (count_last has_failed p.results r);
  }

-- Before an operation: nothing has stopped the loop.
pub record GoesOn (halt : Bool) (p : Progress) : Type 0 where
  pub unstopped : p.stopped_at ≡ none
  pub unfailed : halt ≡ true → p.failed_count ≡ 0

-- After the loop: every operation has a result and nothing has stopped it, or it halted on a failure.
pub data Ends (halt : Bool) (n : ℕ) (p : Progress) : Type 0 where
  ran_through : length p.results ≡ n → GoesOn halt p → Ends halt n p
  halted :
      halt ≡ true
      → is_some p.stopped_at ≡ true
      → p.failed_count ≡ 1
      → length p.results ≤ n
      → Ends halt n p

bounded : (halt : Bool) (n : ℕ) (p : Progress) → Ends halt n p → length p.results ≤ n
bounded halt n p (ran_through e g) = omega (arith, e)
bounded halt n p (halted h s f b) = b

count_failed : (st : ReplayStatus) (n : ℕ) → did_fail st ≡ true → count_if has_failed st n ≡ suc n
count_failed has_failed n h = refl
count_failed was_applied n h = cc
count_failed was_duplicate n h = cc

count_succeeded : (st : ReplayStatus) (n : ℕ) → did_fail st ≡ false → count_if has_failed st n ≡ n
count_succeeded has_failed n h = cc
count_succeeded was_applied n h = refl
count_succeeded was_duplicate n h = refl

length_last :
    (rs : List ReplayResult) (r : ReplayResult) → length (rs ++ (r ∷ [])) ≡ suc (length rs)
length_last [] r = refl
length_last (x ∷ rs) r = ap (λ n. suc n) (length_last rs r)

module _ (halt : Bool) (p : Progress) (g : GoesOn halt p) (i : ℕ) (op : Text)
    (r : ReplayResult) where
  stopped_here :
      (halt && did_fail r.status) ≡ true
      → (m : ℕ) → Ends halt (suc (length p.results + m)) (record_result halt i op r p)
  unfolding record_result
  stopped_here stops m =
      let both = and_split halt (did_fail r.status) stops in
      halted both.0 (rw stops refl)
        (count_failed r.status p.failed_count both.1 ∙ ap (λ n. suc n) (g.unfailed both.0))
        (omega (arith, length_last p.results r))

  passes : (halt && did_fail r.status) ≡ false → GoesOn halt (record_result halt i op r p)
  unfolding record_result
  passes k = record {
    unstopped = rw k g.unstopped;
    unfailed = λ h.
        count_succeeded r.status p.failed_count (ap (λ b. b && did_fail r.status) (sym h) ∙ k)
        ∙ g.unfailed h;
  }

-- What holds of the variables when the loop is left.
pub record Sound (halt : Bool) (n : ℕ) (p : Progress) : Type 0 where
  pub counts : Counts p
  pub ends : Ends halt n p

module _ {P W : Type 0} (run : Run P W) where
  went_on :
      (op : ReplayOperation P) (ops : List (ReplayOperation P)) (p q : Progress) (db : SyncDb P W)
      (r : ReplayResult) (c : Bool)
      → (run.halt && did_fail r.status) ≡ c
      → Counts p
      → GoesOn run.halt p
      → ((next : Progress)
          → Counts next
          → GoesOn run.halt next
          → (db : SyncDb P W) → (replay_operations run ops next db).0 ≡ ok q
          → Sound run.halt (length next.results + length ops) q)
      → (go_on
          (λ n d. replay_operations run ops n d)
          c
          (record_result run.halt op.index op.client_op_id r p)
          db).0
        ≡ ok q
      → Sound run.halt (length p.results + suc (length ops)) q
  unfolding record_result
  went_on op ops p q db r true stops c g ih h =
      subst (Sound run.halt (length p.results + suc (length ops))) (ok-injective h) (record {
        counts = next-Counts run.halt r p op.index op.client_op_id c;
        ends =
            subst (λ n. Ends run.halt n (record_result run.halt op.index op.client_op_id r p))
              (omega arith)
              (stopped_here run.halt p g op.index op.client_op_id r stops (length ops));
      })
  went_on op ops p q db r false k c g ih h =
      let next = record_result run.halt op.index op.client_op_id r p in
      subst (λ n. Sound run.halt n q) (omega (arith, length_last p.results r))
        (ih next (next-Counts run.halt r p op.index op.client_op_id c)
          (passes run.halt p g op.index op.client_op_id r k) db h)

  after_soundly :
      (op : ReplayOperation P) (ops : List (ReplayOperation P)) (p q : Progress)
      (o : Result SyncFailure ReplayResult × SyncDb P W)
      → Counts p
      → GoesOn run.halt p
      → ((next : Progress)
          → Counts next
          → GoesOn run.halt next
          → (db : SyncDb P W) → (replay_operations run ops next db).0 ≡ ok q
          → Sound run.halt (length next.results + length ops) q)
      → (after_operation run.halt op (λ n d. replay_operations run ops n d) p o).0 ≡ ok q
      → Sound run.halt (length p.results + suc (length ops)) q
  after_soundly op ops p q (err e, db) c g ih h = absurd (ok-ne-err (sym h))
  after_soundly op ops p q (ok r, db) c g ih h =
      went_on op ops p q db r (run.halt && did_fail r.status) refl c g ih h

  replayed_soundly :
      (ops : List (ReplayOperation P)) (p q : Progress) (db : SyncDb P W)
      → Counts p
      → GoesOn run.halt p
      → (replay_operations run ops p db).0 ≡ ok q
      → Sound run.halt (length p.results + length ops) q
  unfolding replay_operations
  replayed_soundly [] p q db c g h =
      subst (λ r. Sound run.halt (length p.results + 0) r) (ok-injective h)
        (record { counts = c; ends = ran_through (omega arith) g })
  replayed_soundly (op ∷ ops) p q db c g h =
      after_soundly op ops p q (run_operation run op p.prior db) c g
        (λ next c' g' d h'. replayed_soundly ops next q d c' g' h') h

  pub replay_operations-Sound :
      (ops : List (ReplayOperation P)) (p : Progress) (db : SyncDb P W)
      → (replay_operations run ops no_progress db).0 ≡ ok p
      → Sound run.halt (length ops) p
  replay_operations-Sound ops p db h =
      subst (λ n. Sound run.halt n p) (omega arith)
        (replayed_soundly ops no_progress p db
          (record { applied = refl; duplicate = refl; failed = refl })
          (record { unstopped = refl; unfailed = λ _. refl }) h)

-- What is written into the row of a batch of at most `n` operations.
pub record Finalized (n : ℕ) (f : FinalizeInput) : Type 0 where
  pub counted : f.applied_count + f.duplicate_count + f.failed_count ≡ f.operation_count
  pub at_most : f.operation_count ≤ n
  pub is_completed : (f.status ≡ completed) ↔ (f.failed_count ≡ 0)
  pub is_failed :
      (f.status ≡ batch_failed) ↔ ((f.applied_count + f.duplicate_count ≡ 0) × (f.failed_count ≢ 0))

completed_iff : (a d f : ℕ) → (final_status_of a d f ≡ completed) ↔ (f ≡ 0)
completed_iff a d f = (λ h. ground arith, λ h. ground arith)

failed_iff : (a d f : ℕ) → (final_status_of a d f ≡ batch_failed) ↔ ((a + d ≡ 0) × (f ≢ 0))
failed_iff a d f = (λ h. (ground arith, λ e. ground arith), λ h. ground (arith, h.1))

pub finalization-Finalized :
    (halt : Bool) (n : ℕ) (p : Progress) → Sound halt n p → Finalized n (finalization p)
unfolding finalization
finalization-Finalized halt n p s = record {
  counted = rw (s.counts.applied, s.counts.duplicate, s.counts.failed) (count_sum p.results);
  at_most = bounded halt n p s.ends;
  is_completed = completed_iff p.applied_count p.duplicate_count p.failed_count;
  is_failed = failed_iff p.applied_count p.duplicate_count p.failed_count;
}
