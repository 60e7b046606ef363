-- ===== src/Common/Chain.antt =====
-- `do` blocks of database actions, the actions that only read, and the ways through a block.
use mathlib.Core.Path.{◌≡◌, refl, sym, ap, subst, ◌∙◌}
use mathlib.Core.Bool.{Bool, true, false}
use mathlib.Core.Option.{Option, none, some}
use modula_backend.Common.Results.{
  Result, ok, err, Action, gets, lift, raise_if, or_raise, pure, ok-ne-err,
}

-- What follows an action, by how the action ended.
abbrev pub continue : {S E A B : Type 0} → (A → Action S E B) → Result E A × S → Result E B × S
continue f (ok a, s) = f a s
continue f (err e, s) = (err e, s)

infixl 5 ◌>>=◌ ◌>>◌
unfoldable pub ◌>>=◌ : {S E A B : Type 0} → Action S E A → (A → Action S E B) → Action S E B
◌>>=◌ m f s = continue f (m s)

abbrev pub ◌>>◌ : {S E B : Type 0} → Action S E (Unit {0}) → Action S E B → Action S E B
◌>>◌ m k = m >>= λ _. k

-- The action changes nothing, however it ends.
pub record Reads {S E A : Type 0} (m : Action S E A) : Type 0 where
  pub keeps : (s : S) → (m s).1 ≡ s

-- The action changes nothing where it throws.
pub record Atomic {S E A : Type 0} (m : Action S E A) : Type 0 where
  pub keeps : (s : S) (e : E) → (m s).0 ≡ err e → (m s).1 ≡ s

module _ {S E : Type 0} where
  pub pure-Reads : {A : Type 0} (a : A) → Reads (pure {S = S} {E = E} a)
  pure-Reads a = record { keeps = λ s. refl }

  pub gets-Reads : {A : Type 0} (f : S → A) → Reads (gets {S = S} {E = E} f)
  gets-Reads f = record { keeps = λ s. refl }

  pub lift-Reads : {A : Type 0} (r : Result E A) → Reads (lift {S = S} r)
  lift-Reads r = record { keeps = λ s. refl }

  raise_if_keeps : (c : Bool) (e : E) (s : S) → (raise_if {S = S} c e s).1 ≡ s
  raise_if_keeps true e s = refl
  raise_if_keeps false e s = refl

  pub raise_if-Reads : (c : Bool) (e : E) → Reads (raise_if {S = S} c e)
  raise_if-Reads c e = record { keeps = raise_if_keeps c e }

  or_raise_keeps : {A : Type 0} (o : Option A) (e : E) (s : S) → (or_raise {S = S} o e s).1 ≡ s
  or_raise_keeps none e s = refl
  or_raise_keeps (some a) e s = refl

  pub or_raise-Reads : {A : Type 0} (o : Option A) (e : E) → Reads (or_raise {S = S} o e)
  or_raise-Reads o e = record { keeps = or_raise_keeps o e }

module _ {S E A B : Type 0} (f : A → Action S E B) where
  continue_ok :
      (o : Result E A × S) (s : S) (b : B)
      → o.1 ≡ s
      → (continue f o).0 ≡ ok b
      → (a : A) × (o.0 ≡ ok a) × (continue f o ≡ f a s)
  continue_ok (ok a, s') s b same h = (a, refl, ap (f a) same)
  continue_ok (err e, s') s b same h = absurd (ok-ne-err (sym h))

  -- A block that succeeds after a reading step goes on from the same state.
  pub >>=-eq-ok :
      {m : Action S E A}
      → Reads m
      → (s : S) (b : B) → ((m >>= f) s).0 ≡ ok b
      → (a : A) × ((m s).0 ≡ ok a) × ((m >>= f) s ≡ f a s)
  unfolding ◌>>=◌
  >>=-eq-ok {m} r s b h = continue_ok (m s) s b (r.keeps s) h

  continue_passes :
      (o : Result E A × S) (s : S) (a : A) → o.1 ≡ s → o.0 ≡ ok a → continue f o ≡ f a s
  continue_passes (ok b, s') s a same h = cc
  continue_passes (err e, s') s a same h = absurd (ok-ne-err (sym h))

  continue-Reads :
      (o : Result E A × S) (s : S) → o.1 ≡ s → ((a : A) → Reads (f a)) → (continue f o).1 ≡ s
  continue-Reads (ok a, s') s same k = (k a).keeps s' ∙ same
  continue-Reads (err e, s') s same k = same

  pub >>=-Reads : {m : Action S E A} → Reads m → ((a : A) → Reads (f a)) → Reads (m >>= f)
  unfolding ◌>>=◌
  >>=-Reads {m} r k = record { keeps = λ s. continue-Reads (m s) s (r.keeps s) k }

  -- A reading step that succeeds is passed.
  pub >>=-ok : {m : Action S E A} {s : S} {a : A} → Reads m → (m s).0 ≡ ok a → (m >>= f) s ≡ f a s
  unfolding ◌>>=◌
  >>=-ok {m} {s} {a} r h = continue_passes (m s) s a (r.keeps s) h

-- The action keeps an invariant where it returns.
pub record Preserves {S E A : Type 0} (P : S → Type 0) (m : Action S E A) : Type 0 where
  pub preserves : (s : S) (a : A) → (m s).0 ≡ ok a → P s → P (m s).1

module _ {S E A : Type 0} (P : S → Type 0) where
  pub Reads-Preserves : {m : Action S E A} → Reads m → Preserves P m
  Reads-Preserves r = record { preserves = λ s a h v. subst P (sym (r.keeps s)) v }

  continue_preserves :
      {B : Type 0} (f : A → Action S E B) (o : Result E A × S) (b : B)
      → (continue f o).0 ≡ ok b
      → ((a : A) → o.0 ≡ ok a → P o.1)
      → ((a : A) → Preserves P (f a))
      → P (continue f o).1
  continue_preserves f (ok a, s) b h v k = (k a).preserves s b h (v a refl)
  continue_preserves f (err e, s) b h v k = absurd (ok-ne-err (sym h))

  pub >>=-Preserves :
      {B : Type 0} (f : A → Action S E B) {m : Action S E A}
      → Preserves P m
      → ((a : A) → Preserves P (f a))
      → Preserves P (m >>= f)
  unfolding ◌>>=◌
  >>=-Preserves f {m} p k = record {
    preserves = λ s b h v. continue_preserves f (m s) b h (λ a e. p.preserves s a e v) k;
  }
