-- ===== src/PlatformSystem/PushSync/Replay/Lease.antt =====
-- The lease of an operation (`resolvePushSyncOperationLeaseMs` of pushSync/api/router.ts).
use modula_backend.Common.{
  ℕ, ◌+◌, ◌≤◌, ◌≡◌, ◌↔◌, true, Option, none, some, ℤ, pos, negsuc, leb, arith,
}
use modula_backend.PlatformSystem.PushSync.Rows.{ActorScope, ReplayOperation}
use modula_backend.PlatformSystem.PushSync.Repository.{expired, new_operation}
use modula_backend.PlatformSystem.PushSync.Replay.{resolve_lease_ms}

-- From five seconds to an hour.
resolve_lease_ms_bounds :
    (o : Option ℤ) → (5000 ≤ resolve_lease_ms o) × (resolve_lease_ms o ≤ 3600000)
unfolding resolve_lease_ms
resolve_lease_ms_bounds none = (omega arith, omega arith)
resolve_lease_ms_bounds (some (negsuc n)) = (omega arith, omega arith)
resolve_lease_ms_bounds (some (pos n)) = (ground arith, ground arith)

leb_iff : (a b : ℕ) → (leb a b ≡ true) ↔ (a ≤ b)
leb_iff a b = (λ h. ground arith, λ h. ground arith)

module _ {P : Type 0} (batch id : ℕ) (actor : ActorScope) (op : ReplayOperation P)
    (setting : Option ℤ) (now : ℕ) where
  -- Whatever the setting is, the lease is between five seconds and an hour, and the row of an operation
  -- that starts has expired exactly once that time is over.
  pub resolve_lease_ms-expired :
      (at : ℕ)
      → (5000 ≤ resolve_lease_ms setting)
        × (resolve_lease_ms setting ≤ 3600000)
        × ((expired at
                (new_operation batch actor op (resolve_lease_ms setting) now id).lease_expires_at
              ≡ true)
            ↔ (now + resolve_lease_ms setting ≤ at))
  unfolding new_operation
  resolve_lease_ms-expired at =
      let (low, high) = resolve_lease_ms_bounds setting in
      (low, high, leb_iff (now + resolve_lease_ms setting) at)
