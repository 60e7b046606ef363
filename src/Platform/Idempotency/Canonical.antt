-- ===== src/Platform/Idempotency/Canonical.antt =====
-- Payloads that differ in the order of their fields (`hashPayload` of platform/idempotency/service.ts).
use modula_backend.Common.{Option}
use modula_backend.Common.{◌≡◌, ap, Bool, Text, Action}
use modula_backend.Json.{Json}
use modula_backend.Json.Stable.{SameJson, IsOrder, hash_json_payload, hash_json_payload-SameJson}
use modula_backend.Platform.Idempotency.Records.{Db}
use modula_backend.Platform.Idempotency.Service.{ExecuteInput, Response, start_input, execute}

module _ {W E : Type 0} (quote : Text → Text) (le : Text → Text → Bool) (sha256 : Text → Text)
    (order : IsOrder le) where
  -- Where `localeCompare` is an order, a call is treated the same whatever the order is in which the client
  -- writes the fields of the objects in its payload, at any depth, as long as the order tells keys that
  -- change places apart: it answers the same and leaves the same database.
  pub execute-SameJson :
      (input : ExecuteInput Json) (i j : Json) (refusal : Option E) (handler : Action W E Response)
      (db : Db W)
      → SameJson le i j
      → execute
          (hash_json_payload quote le sha256)
          (record input { payload = i })
          refusal
          handler
          db
        ≡ execute
            (hash_json_payload quote le sha256)
            (record input { payload = j })
            refusal
            handler
            db
  unfolding execute start_input
  execute-SameJson input i j refusal handler db h =
      ap (λ t. execute {P = Json} (λ _. t) input refusal handler db)
        (hash_json_payload-SameJson quote le order sha256 i j h)
