-- ===== src/Redis/Action.antt =====
-- Go functions that talk to Redis and may return an error, as state passing over the server.
-- A call that returns an error may have changed the server before.
use bullmq_go.Prelude.{Bytes, ◌≡◌, refl, Option, none, some, ◌⊎◌, inl, inr}
use bullmq_go.Errors.{Error, wrapped, plain}
use bullmq_go.Redis.Values.{Result, ok, err}

abbrev pub Action : Type 0 → Type 0 → Type 0
Action St A = St → Result A × St

abbrev pub explained : {A : Type 0} → Bytes → Result A → Result A
explained m (ok a) = ok a
explained m (err e) = err (wrapped m e)

module _ {St A : Type 0} where
  unfoldable pub pure : A → Action St A
  pure a s = (ok a, s)

  unfoldable pub fail : Error → Action St A
  fail e s = (err e, s)

  -- A call whose error the code drops.
  unfoldable pub ignore : Action St A → Action St (Unit {0})
  ignore m s = (ok tt, (m s).1)

  -- A call whose error the code looks at.
  unfoldable pub attempt : Action St A → Action St (Result A)
  attempt m s = (ok (m s).0, (m s).1)

  -- fmt.Errorf("text: %w", err) round the error of a call.
  unfoldable pub explain : Bytes → Action St A → Action St A
  explain m act s = let (r, s') = act s in (explained m r, s')

module _ {St : Type 0} where
  -- `return err` where a check gives an error.
  unfoldable pub reject : Option Error → Action St (Unit {0})
  reject none s = (ok tt, s)
  reject (some e) s = (err e, s)

  -- What a marshaller returns, its error explained.
  unfoldable pub marshalled : Bytes → Bytes ⊎ Bytes → Action St Bytes
  marshalled m (inl reason) s = (err (wrapped m (plain reason)), s)
  marshalled m (inr text) s = (ok text, s)

module _ {St A B : Type 0} where
  abbrev continue : Result A → (A → Action St B) → Action St B
  continue (ok a) f s = f a s
  continue (err e) f s = (err e, s)

  infixl 5 ◌>>=◌ ◌>>◌
  -- To open this is to open the others.
  unfoldable pub ◌>>=◌ : Action St A → (A → Action St B) → Action St B
  unfolding pure fail ignore attempt explain reject marshalled
  ◌>>=◌ m f s = let (r, s') = m s in continue r f s'

  abbrev pub ◌>>◌ : Action St A → Action St B → Action St B
  m >> k = m >>= λ _. k

  pub bind_of_ok :
      (m : Action St A) (f : A → Action St B) (s : St) (a : A)
      → (m s).0 ≡ ok a
      → (m >>= f) s ≡ f a (m s).1
  unfolding ◌>>=◌
  bind_of_ok m f s a e = rw (e, continue) refl

  pub bind_of_err :
      (m : Action St A) (f : A → Action St B) (s : St) (e : Error)
      → (m s).0 ≡ err e
      → (m >>= f) s ≡ (err e, (m s).1)
  unfolding ◌>>=◌
  bind_of_err m f s e h = rw (h, continue) refl

module _ {St A B : Type 0} where
  -- Inversion of a call that succeeded, and of one that failed.
  bind_ok_cases :
      (r : Result A) (m : Action St A) (f : A → Action St B) (s : St) (b : B)
      → (m s).0 ≡ r
      → ((m >>= f) s).0 ≡ ok b
      → (a : A) × ((m s).0 ≡ ok a) × ((m >>= f) s ≡ f a (m s).1)
  bind_ok_cases (ok a) m f s b e h = (a, e, bind_of_ok m f s a e)
  bind_ok_cases (err x) m f s b e h = cc (bind_of_err m f s x e)

  pub bind-eq-ok :
      (m : Action St A) (f : A → Action St B) (s : St) (b : B)
      → ((m >>= f) s).0 ≡ ok b
      → (a : A) × ((m s).0 ≡ ok a) × ((m >>= f) s ≡ f a (m s).1)
  bind-eq-ok m f s b h = bind_ok_cases (m s).0 m f s b refl h

  pub bind_cases :
      (r : Result A) (m : Action St A) (f : A → Action St B) (s : St)
      → (m s).0 ≡ r
      → ((e : Error) × ((m s).0 ≡ err e) × ((m >>= f) s ≡ (err e, (m s).1)))
        ⊎ ((a : A) × ((m s).0 ≡ ok a) × ((m >>= f) s ≡ f a (m s).1))
  bind_cases (ok a) m f s e = inr (a, e, bind_of_ok m f s a e)
  bind_cases (err x) m f s e = inl (x, e, bind_of_err m f s x e)
