-- ===== src/Json/Stable.antt =====
-- The canonical text of a JSON value (shared/utils/hash.ts, and `stableStringify` of platform/idempotency/service.ts), from which
-- payloads are hashed. `JSON.stringify` of a string, `localeCompare` as an order and SHA-256 are arguments.
use modula_backend.Common.{
  Bool, true, false, ◌≡◌, refl, sym, ap, ◌∙◌, ◌⊎◌, inl, inr, List, [], ◌∷◌, ◌++◌, Text, codes,
  if◌then◌else◌, Bool-cases,
}
use modula_backend.Json.{Json, null, bool, num, str, arr, obj, Items, nil, cons, Fields, end, field}

abbrev pub print_bool : Bool → Text
print_bool b = if b then codes "true" else codes "false"

-- `join(",")`.
abbrev pub join : List Text → Text
join [] = []
join (t ∷ []) = t
join (t ∷ u ∷ ts) = t ++ (codes "," ++ join (u ∷ ts))

abbrev pub Entry : Type 0
Entry = Text × Text

abbrev pub texts : List Entry → List Text
texts [] = []
texts (e ∷ es) = e.1 ∷ texts es

module _ (le : Text → Text → Bool) where
  -- `sort`, which is stable, from the last entry to the first.
  abbrev pub insert_entry : Entry → List Entry → List Entry
  insert_entry e [] = e ∷ []
  insert_entry e (x ∷ xs) =
      let rest = insert_entry e xs in if le e.0 x.0 then e ∷ x ∷ xs else x ∷ rest

module _ (quote : Text → Text) (le : Text → Text → Bool) where
  unfoldable mutual
    pub stable_json_stringify : Json → Text
    stable_json_stringify null = codes "null"
    stable_json_stringify (bool b) = print_bool b
    stable_json_stringify (num n) = n
    stable_json_stringify (str s) = quote s
    stable_json_stringify (arr xs) = codes "[" ++ (join (print_items xs) ++ codes "]")
    stable_json_stringify (obj fs) = codes "{" ++ (join (texts (sorted_entries fs)) ++ codes "}")

    pub print_items : Items → List Text
    print_items nil = []
    print_items (cons x xs) = stable_json_stringify x ∷ print_items xs

    pub sorted_entries : Fields → List Entry
    sorted_entries end = []
    sorted_entries (field k v fs) =
        insert_entry le (k, quote k ++ (codes ":" ++ stable_json_stringify v)) (sorted_entries fs)

  unfoldable pub hash_json_payload : (Text → Text) → Json → Text
  hash_json_payload sha256 j = sha256 (stable_json_stringify j)

-- Keys that the order tells apart.
abbrev pub TellsApart : (Text → Text → Bool) → Text → Text → Type 0
TellsApart le k l = (le k l ≡ false) ⊎ (le l k ≡ false)

-- One value written in two ways: the fields of an object stand in another order, at any depth.
mutual
  pub data SameJson (le : Text → Text → Bool) : Json → Json → Type 0 where
    same : {j : Json} → SameJson le j j
    same_arr : {xs ys : Items} → SameItems le xs ys → SameJson le (arr xs) (arr ys)
    same_obj : {fs gs : Fields} → Reordered le fs gs → SameJson le (obj fs) (obj gs)

  pub data SameItems (le : Text → Text → Bool) : Items → Items → Type 0 where
    same_nil : SameItems le nil nil
    same_cons :
        {x y : Json} {xs ys : Items}
        → SameJson le x y
        → SameItems le xs ys
        → SameItems le (cons x xs) (cons y ys)

  pub data Reordered (le : Text → Text → Bool) : Fields → Fields → Type 0 where
    same_end : Reordered le end end
    same_field :
        {k : Text} {v w : Json} {fs gs : Fields}
        → SameJson le v w
        → Reordered le fs gs
        → Reordered le (field k v fs) (field k w gs)
    swapped :
        {k l : Text} {v w : Json} {fs : Fields}
        → TellsApart le k l
        → Reordered le (field k v (field l w fs)) (field l w (field k v fs))
    and_then : {fs gs hs : Fields} → Reordered le fs gs → Reordered le gs hs → Reordered le fs hs

-- The order is one: of two keys one comes first, and it is transitive.
pub record IsOrder (le : Text → Text → Bool) : Type 0 where
  pub total : (k l : Text) → le k l ≡ false → le l k ≡ true
  pub transitive : (k l m : Text) → le k l ≡ true → le l m ≡ true → le k m ≡ true

module _ (le : Text → Text → Bool) (order : IsOrder le) where
  below : (a b x : Text) → le a b ≡ true → le a x ≡ false → le b x ≡ false
  below a b x ab ax = elim (Bool-cases (le b x)) [
    | inl bx ↦ let t = order.transitive a b x ab bx in cc
    | inr nb ↦ nb
  ]

  -- The smaller of two entries can be inserted first or last.
  insert_smaller :
      (a b : Entry) (es : List Entry)
      → le a.0 b.0 ≡ true
      → le b.0 a.0 ≡ false
      → insert_entry le a (insert_entry le b es) ≡ insert_entry le b (insert_entry le a es)
  insert_smaller a b [] ab ba = rw (ab, ba) refl
  insert_smaller a b (x ∷ es) ab ba = elim (Bool-cases (le a.0 x.0)) [
    | inl ax ↦ elim (Bool-cases (le b.0 x.0)) [
      | inl bx ↦ rw (ax, bx, ab, ba) refl
      | inr nb ↦ rw (ax, nb, ax, ba) refl
    ]
    | inr na ↦
        rw (na, below a.0 b.0 x.0 ab na) (rw na (ap (λ l. x ∷ l) (insert_smaller a b es ab ba)))
  ]

  insert_swap :
      (a b : Entry) (es : List Entry)
      → TellsApart le a.0 b.0
      → insert_entry le a (insert_entry le b es) ≡ insert_entry le b (insert_entry le a es)
  insert_swap a b es (inl ab) = sym (insert_smaller b a es (order.total a.0 b.0 ab) ab)
  insert_swap a b es (inr ba) = insert_smaller a b es (order.total b.0 a.0 ba) ba

module _ (quote : Text → Text) (le : Text → Text → Bool) (order : IsOrder le) where
  mutual
    unfolding stable_json_stringify

    -- A value has one text, in whatever order a client writes the fields of its objects.
    pub stable_json_stringify-SameJson :
        {i j : Json}
        → SameJson le i j
        → stable_json_stringify quote le i ≡ stable_json_stringify quote le j
    stable_json_stringify-SameJson same = refl
    stable_json_stringify-SameJson (same_arr h) =
        ap (λ ts. codes "[" ++ (join ts ++ codes "]")) (print_items-SameItems h)
    stable_json_stringify-SameJson (same_obj h) =
        ap (λ es. codes "{" ++ (join (texts es) ++ codes "}")) (sorted_entries-Reordered h)

    print_items-SameItems :
        {xs ys : Items} → SameItems le xs ys → print_items quote le xs ≡ print_items quote le ys
    print_items-SameItems same_nil = refl
    print_items-SameItems (same_cons {y = y} {xs = xs} h k) =
        ap (λ t. t ∷ print_items quote le xs) (stable_json_stringify-SameJson h)
        ∙ ap (λ ts. stable_json_stringify quote le y ∷ ts) (print_items-SameItems k)

    sorted_entries-Reordered :
        {fs gs : Fields}
        → Reordered le fs gs
        → sorted_entries quote le fs ≡ sorted_entries quote le gs
    sorted_entries-Reordered same_end = refl
    sorted_entries-Reordered (same_field {k = k} {w = w} {fs = fs} h r) =
        ap (λ t. insert_entry le (k, quote k ++ (codes ":" ++ t)) (sorted_entries quote le fs))
          (stable_json_stringify-SameJson h)
        ∙ ap
            (λ es.
              insert_entry le (k, quote k ++ (codes ":" ++ stable_json_stringify quote le w)) es)
            (sorted_entries-Reordered r)
    sorted_entries-Reordered (swapped {k = k} {l = l} {v = v} {w = w} {fs = fs} apart) =
        insert_swap le order (k, quote k ++ (codes ":" ++ stable_json_stringify quote le v))
          (l, quote l ++ (codes ":" ++ stable_json_stringify quote le w))
          (sorted_entries quote le fs) apart
    sorted_entries-Reordered (and_then r s) =
        sorted_entries-Reordered r ∙ sorted_entries-Reordered s

  -- So two ways to write one payload have one hash: the order of the fields of its objects, at any depth, does
  -- not make a payload conflict.
  pub hash_json_payload-SameJson :
      (sha256 : Text → Text) (i j : Json)
      → SameJson le i j
      → hash_json_payload quote le sha256 i ≡ hash_json_payload quote le sha256 j
  unfolding hash_json_payload
  hash_json_payload-SameJson sha256 i j h = ap sha256 (stable_json_stringify-SameJson h)
