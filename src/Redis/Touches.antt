-- ===== src/Redis/Touches.antt =====
-- Which keys an action can change, one rule for each way to build an action. Nothing is assumed
-- of the replies: a frame holds on every error path.
use bullmq_go.Prelude.{
  Bytes, bytes_eq, ◌≡◌, refl, ap, ◌∙◌, Bool, true, false, List, [], ◌∷◌, if◌then◌else◌, Option,
  none, some, ◌⊎◌, inl, inr,
}
use bullmq_go.Errors.{Error}
use bullmq_go.Redis.{Server, Laws}
use bullmq_go.Redis.Values.{Command, Result, ok, err, key}
use bullmq_go.Redis.Action.{
  Action, pure, fail, ignore, attempt, explain, reject, marshalled, ◌>>=◌, bind_of_ok, bind_of_err,
}
use bullmq_go.Redis.Facts.{value_other}

-- The key differs from every key of the list.
abbrev pub Apart : Bytes → List Bytes → Type 0
Apart k [] = Unit {0}
Apart k (x ∷ xs) = (bytes_eq k x ≡ false) × Apart k xs

pub data Elem (x : Bytes) : List Bytes → Type 0 where
  here : {xs : List Bytes} → Elem x (x ∷ xs)
  there : {y : Bytes} {xs : List Bytes} → Elem x xs → Elem x (y ∷ xs)

bytes_eq-of_Elem :
    (k : Bytes) {x : Bytes} {xs : List Bytes} → Apart k xs → Elem x xs → bytes_eq k x ≡ false
bytes_eq-of_Elem k h here = h.0
bytes_eq-of_Elem k h (there e) = bytes_eq-of_Elem k h.1 e

-- Whatever the action returns, it leaves every other key alone.
pub record Touches (R : Server) (ks : List Bytes) {A : Type 0} (m : Action R.Store A) : Type 0 where
  pub keeps : (s : R.Store) (k : Bytes) → Apart k ks → R.value (m s).1 k ≡ R.value s k

module _ {R : Server} (L : Laws R) (ks : List Bytes) where
  pub Touches-exec : (c : Command) → Elem (key c) ks → Touches R ks (R.exec c)
  Touches-exec c e = record { keeps = λ s k a. value_other L c s k (bytes_eq-of_Elem k a e) }

module _ {R : Server} {ks : List Bytes} {A : Type 0} where
  pub Touches-pure : (a : A) → Touches R ks {A = A} (pure a)
  unfolding pure
  Touches-pure a = record { keeps = λ s k h. refl }

  pub Touches-fail : (e : Error) → Touches R ks {A = A} (fail e)
  unfolding fail
  Touches-fail e = record { keeps = λ s k h. refl }

  pub Touches-ignore : (m : Action R.Store A) → Touches R ks m → Touches R ks (ignore m)
  unfolding ignore
  Touches-ignore m t = record { keeps = t.keeps }

  pub Touches-attempt : (m : Action R.Store A) → Touches R ks m → Touches R ks (attempt m)
  unfolding attempt
  Touches-attempt m t = record { keeps = t.keeps }

  pub Touches-explain :
      (text : Bytes) (m : Action R.Store A) → Touches R ks m → Touches R ks (explain text m)
  unfolding explain
  Touches-explain text m t = record { keeps = t.keeps }

  pub Touches-if :
      (b : Bool) (m n : Action R.Store A)
      → Touches R ks m
      → Touches R ks n
      → Touches R ks (if b then m else n)
  Touches-if true m n tm tn = tm
  Touches-if false m n tm tn = tn

module _ {R : Server} {ks : List Bytes} where
  pub Touches-reject : (o : Option Error) → Touches R ks (reject o)
  unfolding reject
  Touches-reject none = record { keeps = λ s k h. refl }
  Touches-reject (some e) = record { keeps = λ s k h. refl }

  pub Touches-marshalled :
      (text : Bytes) (r : Bytes ⊎ Bytes) → Touches R ks (marshalled {St = R.Store} text r)
  unfolding marshalled
  Touches-marshalled text (inl reason) = record { keeps = λ s k h. refl }
  Touches-marshalled text (inr json) = record { keeps = λ s k h. refl }

module _ {R : Server} {ks : List Bytes} {A B : Type 0} where
  bind_keeps :
      (r : Result A) (m : Action R.Store A) (f : A → Action R.Store B) (s : R.Store) (k : Bytes)
      → (m s).0 ≡ r
      → Touches R ks m
      → ((a : A) → Touches R ks (f a))
      → Apart k ks
      → R.value ((m >>= f) s).1 k ≡ R.value s k
  bind_keeps (ok a) m f s k e tm tf h =
      ap (λ (p : Result B × R.Store). R.value p.1 k) (bind_of_ok m f s a e)
      ∙ (tf a).keeps (m s).1 k h
      ∙ tm.keeps s k h
  bind_keeps (err x) m f s k e tm tf h =
      ap (λ (p : Result B × R.Store). R.value p.1 k) (bind_of_err m f s x e) ∙ tm.keeps s k h

  pub Touches-bind :
      (m : Action R.Store A) (f : A → Action R.Store B)
      → Touches R ks m
      → ((a : A) → Touches R ks (f a))
      → Touches R ks (m >>= f)
  Touches-bind m f tm tf = record { keeps = λ s k h. bind_keeps (m s).0 m f s k refl tm tf h }

pub ruleset touches_rules = (
  Touches-exec, Touches-pure, Touches-fail, Touches-ignore, Touches-attempt, Touches-explain,
  Touches-if, Touches-reject, Touches-bind, here, there,
)
