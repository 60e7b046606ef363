-- ===== src/Platform/Roles.antt =====
-- The role of a membership (`RoleKey` in platform/access-control/types.ts). A stored text that is
-- none of the five known keys is `other`.
use modula_backend.Common.{Bool, true, false, Text}

pub data RoleKey : Type 0 where
  owner admin manager cashier clerk : RoleKey
  other : Text → RoleKey

abbrev pub is_cashier : RoleKey → Bool
is_cashier cashier = true
is_cashier _ = false

-- `["OWNER", "ADMIN", "MANAGER"].includes(role)`.
abbrev pub is_supervisor : RoleKey → Bool
is_supervisor owner = true
is_supervisor admin = true
is_supervisor manager = true
is_supervisor _ = false

-- `["OWNER", "ADMIN", "MANAGER", "CASHIER"].includes(role)`.
abbrev pub is_till_staff : RoleKey → Bool
is_till_staff owner = true
is_till_staff admin = true
is_till_staff manager = true
is_till_staff cashier = true
is_till_staff _ = false
