-- ===== src/Errors/Category.antt =====
-- What `CategorizeError` decides, against the chain of a wrapped error and its text.
use bullmq_go.Prelude.{Bytes, codes, ◌≡◌, ◌⊎◌, not, Bool, true, false, ◌||◌, ◌&&◌, ◌++◌}
use bullmq_go.Errors.{
  Error, unwrap, any_in_chain, is_transient, is_permanent, is_net, is_context, is_redis_nil, is_nil,
  mentions_connection, error_string,
}

-- The errors that `Unwrap` leads to, the error itself first; nil ends the chain.
pub data InChain : Error → Error → Type 0 where
  itself : {e : Error} → is_nil e ≡ false → InChain e e
  inside : {x e : Error} → is_nil e ≡ false → InChain x (unwrap e) → InChain x e

abbrev pub Holds : (Error → Bool) → Error → Type 0
Holds p e = (x : Error) × InChain x e × (p x ≡ true)

-- A text occurs in another one.
abbrev pub Occurs : Bytes → Bytes → Type 0
Occurs sub s = (before : Bytes) × (after : Bytes) × (s ≡ before ++ (sub ++ after))

-- The texts of a connection error.
abbrev pub MentionsConnection : Bytes → Type 0
MentionsConnection s =
    Occurs (codes "connection refused") s
    ⊎ (Occurs (codes "i/o timeout") s ⊎ (Occurs (codes "LOADING") s ⊎ Occurs (codes "READONLY") s))

-- The tests in the order of the code, as one.
transient_test : Error → Bool
transient_test e =
    any_in_chain is_transient e
    || (not (any_in_chain is_permanent e)
        && (any_in_chain is_net e
            || (any_in_chain is_context e
                || (not (any_in_chain is_redis_nil e) && mentions_connection (error_string e)))))

-- What makes an error transient.
abbrev pub IsTransient : Error → Type 0
IsTransient e =
    Holds is_transient e
    ⊎ ((¬ (Holds is_permanent e))
        × (Holds is_net e
            ⊎ (Holds is_context e
                ⊎ ((¬ (Holds is_redis_nil e)) × MentionsConnection (error_string e)))))
