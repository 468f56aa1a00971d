-- ===== src/Invariant/Keeps.antt =====
-- What an action keeps, whatever it returns, and what it returns: one rule for each way to build
-- an action.
use bullmq_go.Prelude.{
  Bytes, bytes_eq, eq_of_bytes_eq, ◌≡◌, refl, sym, ap, subst, ◌∙◌, Bool, true, false, List, [], ◌∷◌,
  ◌⊎◌, inl, inr, Option, none, some, Bool-cases, if◌then◌else◌,
}
use bullmq_go.Errors.{Error}
use bullmq_go.Redis.{Server, Laws}
use bullmq_go.Redis.Values.{Command, Value, Answer, Result, ok, err, key, outcome}
use bullmq_go.Redis.Action.{
  Action, pure, fail, ignore, attempt, explain, explained, reject, marshalled, ◌>>=◌, bind_of_ok,
  bind_of_err,
}
use bullmq_go.Redis.Facts.{value_other, after_exec}
use bullmq_go.Redis.Touches.{Touches, Apart}
use bullmq_go.Keys.{KeyBuilder}
use bullmq_go.Keys.Distinct.{KeyName, key_of, IsValid, key_of-injective}
use bullmq_go.Invariant.Fits.{shape, fits, allowed}
use bullmq_go.Invariant.Effects.{effect-fits}

-- Every key of the queue has its shape, and the delayed set holds the member that is asked for.
pub record Consistent (R : Server) (kb : KeyBuilder) (kept : Option Bytes) (s : R.Store)
    : Type 0 where
  pub at : (n : KeyName) → IsValid n → fits (shape kept n) (R.value s (key_of kb n)) ≡ true

pub record Keeps {St : Type 0} (I : St → Type 0) {A : Type 0} (m : Action St A) : Type 0 where
  pub keeps : (s : St) → I s → I (m s).1

pub record Returns {St : Type 0} (I : St → Type 0) {A : Type 0} (Q : A → Type 0) (m : Action St A)
    : Type 0 where
  pub returns : (s : St) → I s → (a : A) → (m s).0 ≡ ok a → Q a

module _ {St : Type 0} {I : St → Type 0} {A : Type 0} where
  pub Keeps-pure : (a : A) → Keeps I {A = A} (pure a)
  unfolding pure
  Keeps-pure a = record { keeps = λ s h. h }

  pub Keeps-fail : (e : Error) → Keeps I {A = A} (fail e)
  unfolding fail
  Keeps-fail e = record { keeps = λ s h. h }

  pub Keeps-ignore : (m : Action St A) → Keeps I m → Keeps I (ignore m)
  unfolding ignore
  Keeps-ignore m k = record { keeps = k.keeps }

  pub Keeps-attempt : (m : Action St A) → Keeps I m → Keeps I (attempt m)
  unfolding attempt
  Keeps-attempt m k = record { keeps = k.keeps }

  pub Keeps-explain : (text : Bytes) (m : Action St A) → Keeps I m → Keeps I (explain text m)
  unfolding explain
  Keeps-explain text m k = record { keeps = k.keeps }

  pub Keeps-if :
      (b : Bool) (m n : Action St A) → Keeps I m → Keeps I n → Keeps I (if b then m else n)
  Keeps-if true m n km kn = km
  Keeps-if false m n km kn = kn

module _ {St : Type 0} {I : St → Type 0} where
  pub Keeps-reject : (o : Option Error) → Keeps I (reject {St = St} o)
  unfolding reject
  Keeps-reject none = record { keeps = λ s h. h }
  Keeps-reject (some e) = record { keeps = λ s h. h }

  pub Keeps-marshalled : (text : Bytes) (r : Bytes ⊎ Bytes) → Keeps I (marshalled {St = St} text r)
  unfolding marshalled
  Keeps-marshalled text (inl reason) = record { keeps = λ s h. h }
  Keeps-marshalled text (inr json) = record { keeps = λ s h. h }

module _ {St : Type 0} {I : St → Type 0} {A B : Type 0} where
  bind_keeps :
      {Q : A → Type 0} (r : Result A) (m : Action St A) (f : A → Action St B) (s : St)
      → (m s).0 ≡ r
      → Keeps I m
      → Returns I Q m
      → ((a : A) → Q a → Keeps I (f a))
      → I s
      → I ((m >>= f) s).1
  bind_keeps (ok a) m f s e km rm kf h =
      subst (λ (p : Result B × St). I p.1) (sym (bind_of_ok m f s a e))
        ((kf a (rm.returns s h a e)).keeps (m s).1 (km.keeps s h))
  bind_keeps (err x) m f s e km rm kf h =
      subst (λ (p : Result B × St). I p.1) (sym (bind_of_err m f s x e)) (km.keeps s h)

  -- The rest may use what the first call returns.
  pub Keeps-bind-with :
      (Q : A → Type 0) (m : Action St A) (f : A → Action St B)
      → Keeps I m
      → Returns I Q m
      → ((a : A) → Q a → Keeps I (f a))
      → Keeps I (m >>= f)
  Keeps-bind-with Q m f km rm kf = record {
    keeps = λ s h. bind_keeps (m s).0 m f s refl km rm kf h;
  }

  pub Keeps-bind :
      (m : Action St A) (f : A → Action St B)
      → Keeps I m
      → ((a : A) → Keeps I (f a))
      → Keeps I (m >>= f)
  Keeps-bind m f km kf =
      Keeps-bind-with (λ _. Unit {0}) m f km (record { returns = λ s h a e. tt }) (λ a _. kf a)

-- Case distinctions on what a call answered.
module _ {St : Type 0} {I : St → Type 0} {A B : Type 0} where
  pub Keeps-elim_result :
      (r : Result A) (f : A → Action St B) (g : Error → Action St B)
      → ((a : A) → Keeps I (f a))
      → ((e : Error) → Keeps I (g e))
      → Keeps I (elim r [ ok a ↦ f a | err e ↦ g e ])
  Keeps-elim_result (ok a) f g kf kg = kf a
  Keeps-elim_result (err e) f g kf kg = kg e

  pub Keeps-elim_option :
      (o : Option A) (m : Action St B) (f : A → Action St B)
      → Keeps I m
      → ((a : A) → Keeps I (f a))
      → Keeps I (elim o [ none ↦ m | some a ↦ f a ])
  Keeps-elim_option none m f km kf = km
  Keeps-elim_option (some a) m f km kf = kf a

  pub Keeps-elim_list :
      (xs : List A) (m : Action St B) (f : A → List A → Action St B)
      → Keeps I m
      → ((x : A) (ys : List A) → Keeps I (f x ys))
      → Keeps I (elim xs [ [] ↦ m | x ∷ ys ↦ f x ys ])
  Keeps-elim_list [] m f km kf = km
  Keeps-elim_list (x ∷ ys) m f km kf = kf x ys

pub ruleset keeps_rules = (
  Keeps-pure, Keeps-fail, Keeps-ignore, Keeps-attempt, Keeps-explain, Keeps-if, Keeps-reject,
  Keeps-marshalled, Keeps-bind, Keeps-elim_result, Keeps-elim_option, Keeps-elim_list,
)

module _ {R : Server} (L : Laws R) (kb : KeyBuilder) (kept : Option Bytes) where
  same_key :
      (n : KeyName) (c : Command) (s : R.Store)
      → key c ≡ key_of kb n
      → allowed (shape kept n) c ≡ true
      → fits (shape kept n) (R.value s (key_of kb n)) ≡ true
      → fits (shape kept n) (R.value (R.exec c s).1 (key_of kb n)) ≡ true
  same_key n c s e a h =
      let before = ap (λ k. fits (shape kept n) (R.value s k)) e ∙ h in
      subst (λ k. fits (shape kept n) (R.value (R.exec c s).1 k) ≡ true) e
        (after_exec L (λ v. fits (shape kept n) v ≡ true) c s before
          (effect-fits (shape kept n) c (R.value s (key c)) before a))

  -- A command that the key's shape allows.
  pub Keeps-exec :
      (n : KeyName) (c : Command)
      → IsValid n
      → key c ≡ key_of kb n
      → allowed (shape kept n) c ≡ true
      → Keeps (Consistent R kb kept) (R.exec c)
  Keeps-exec n c v e a = record {
    keeps = λ s inv. record {
      at = λ m u. elim (Bool-cases (bytes_eq (key_of kb m) (key c))) [
        | inl same ↦
            let here = key_of-injective kb n m v u (sym e ∙ sym (eq_of_bytes_eq _ _ same)) in
            subst (λ j. fits (shape kept j) (R.value (R.exec c s).1 (key_of kb j)) ≡ true) here
              (same_key n c s e a (inv.at n v))
        | inr other ↦ ap (fits (shape kept m)) (value_other L c s _ other) ∙ inv.at m u
      ];
    };
  }

  -- An action that touches the keys of others alone.
  pub Keeps-away :
      {A : Type 0} (ks : List Bytes) (m : Action R.Store A)
      → Touches R ks m
      → ((n : KeyName) → IsValid n → Apart (key_of kb n) ks)
      → Keeps (Consistent R kb kept) m
  Keeps-away ks m t away = record {
    keeps = λ s inv. record {
      at = λ n v. ap (fits (shape kept n)) (t.keeps s _ (away n v)) ∙ inv.at n v;
    };
  }

  -- What an accepted command answers, from the shape of its key.
  pub Returns-exec :
      (n : KeyName) (c : Command) (Q : Answer c → Type 0)
      → IsValid n
      → key c ≡ key_of kb n
      → ((v : Value) (a : Answer c) → fits (shape kept n) v ≡ true → outcome c v ≡ ok a → Q a)
      → Returns (Consistent R kb kept) Q (R.exec c)
  Returns-exec n c Q v e reply = record {
    returns = λ s inv a accepted.
        reply (R.value s (key c)) a (ap (λ k. fits (shape kept n) (R.value s k)) e ∙ inv.at n v)
          (L.accepted c s a accepted).0;
  }

module _ {St : Type 0} {I : St → Type 0} {A : Type 0} (Q : A → Type 0) where
  pub Returns-pure : (a : A) → Q a → Returns I Q (pure a)
  unfolding pure
  Returns-pure a q = record { returns = λ s h b e. subst Q (ok_injective a b e) q }
    where
      ok_injective : (x y : A) → ok x ≡ ok y → x ≡ y
      ok_injective x y h = cc

  pub Returns-fail : (e : Error) → Returns I Q (fail e)
  unfolding fail
  Returns-fail e = record { returns = λ s h b k. cc }

  pub Returns-attempt :
      (m : Action St A) → Returns I Q m → Returns I (λ r. (a : A) → r ≡ ok a → Q a) (attempt m)
  unfolding attempt
  Returns-attempt m rm = record {
    returns = λ s h r e a k. rm.returns s h a (ok_injective (m s).0 r e ∙ k);
  }
    where
      ok_injective : (x y : Result A) → ok x ≡ ok y → x ≡ y
      ok_injective x y h = cc

  pub Returns-if :
      (b : Bool) (m n : Action St A)
      → Returns I Q m
      → Returns I Q n
      → Returns I Q (if b then m else n)
  Returns-if true m n rm rn = rm
  Returns-if false m n rm rn = rn

  pub Returns-explain :
      (text : Bytes) (m : Action St A) → Returns I Q m → Returns I Q (explain text m)
  unfolding explain
  Returns-explain text m rm = record {
    returns = λ s h a e. rm.returns s h a (ok_of_explained text (m s).0 a e);
  }
    where
      ok_of_explained : (t : Bytes) (r : Result A) (a : A) → explained t r ≡ ok a → r ≡ ok a
      ok_of_explained t (ok b) a h = h
      ok_of_explained t (err e) a h = cc

module _ {St : Type 0} {I : St → Type 0} {A B : Type 0} where
  bind_returns :
      {Q : A → Type 0} {Q' : B → Type 0} (r : Result A) (m : Action St A) (f : A → Action St B)
      (s : St) (b : B)
      → (m s).0 ≡ r
      → Keeps I m
      → Returns I Q m
      → ((a : A) → Q a → Returns I Q' (f a))
      → I s
      → ((m >>= f) s).0 ≡ ok b
      → Q' b
  bind_returns (ok a) m f s b e km rm rf h k =
      (rf a (rm.returns s h a e)).returns (m s).1 (km.keeps s h) b
        (ap (λ (p : Result B × St). p.0) (sym (bind_of_ok m f s a e)) ∙ k)
  bind_returns (err x) m f s b e km rm rf h k = cc (bind_of_err m f s x e)

  pub Returns-bind-with :
      (Q : A → Type 0) (Q' : B → Type 0) (m : Action St A) (f : A → Action St B)
      → Keeps I m
      → Returns I Q m
      → ((a : A) → Q a → Returns I Q' (f a))
      → Returns I Q' (m >>= f)
  Returns-bind-with Q Q' m f km rm rf = record {
    returns = λ s h b k. bind_returns {Q' = Q'} (m s).0 m f s b refl km rm rf h k;
  }
