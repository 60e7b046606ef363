-- ===== src/Json.antt =====
-- The JSON values that requests carry. A number is kept as the text that `JSON.stringify` prints.
pub mod Stable
use modula_backend.Common.{Text, Bool}

mutual
  pub data Json : Type 0 where
    null : Json
    bool : Bool → Json
    num : Text → Json
    str : Text → Json
    arr : Items → Json
    obj : Fields → Json

  pub data Items : Type 0 where
    nil : Items
    cons : Json → Items → Items

  pub data Fields : Type 0 where
    end : Fields
    field : Text → Json → Fields → Fields
