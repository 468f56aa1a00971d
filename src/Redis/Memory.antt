-- ===== src/Redis/Memory.antt =====
-- A server in memory: a function from keys to values. It refuses the commands that `refuse` picks
-- with a network error; one that refuses none is healthy. It shows that the laws can be met.
use bullmq_go.Prelude.{
  Bytes, codes, bytes_eq, bytes_eq_refl, eq_of_bytes_eq, refl, Bool, false, arith, if◌then◌else◌,
  Bool-cases, inl, inr, ◌⊎◌, ◌≡◌,
}
use bullmq_go.Errors.{network, nil_error}
use bullmq_go.Redis.{Server, Laws, IsHealthy}
use bullmq_go.Redis.Facts.{Result-cases}
use bullmq_go.Redis.Values.{Value, Command, Answer, Result, ok, err, key, outcome, effect, settle}

unfoldable pub memory_exec :
    (Command → Bool) → (c : Command) → (Bytes → Value) → Result (Answer c) × (Bytes → Value)
memory_exec refuse c s =
    if refuse c
    then (err (network (codes "i/o timeout") nil_error), s)
    else (outcome c (s (key c)), λ k. if bytes_eq k (key c) then settle c (s (key c)) else s k)

abbrev pub memory : (Command → Bool) → Server
memory refuse = record { Store = Bytes → Value; exec = memory_exec refuse; value = λ s. s }

pub memory-Laws : (refuse : Command → Bool) → Laws (memory refuse)
unfolding memory_exec
memory-Laws refuse = record {
  accepted = λ c s a e. elim (Bool-cases (refuse c)) [
    | inl r ↦ ground (arith, bytes_eq_refl (key c))
    | inr r ↦ ground (arith, bytes_eq_refl (key c))
  ];
  failed = λ c s e h. elim (Bool-cases (refuse c)) [
    | inl r ↦ inl (ground arith)
    | inr r ↦ inl (ground (arith, bytes_eq_refl (key c)))
  ];
  framed = λ c s k ne. ground (arith, eq_of_bytes_eq k (key c));
}

abbrev pub never : Command → Bool
never c = false

pub memory-IsHealthy : IsHealthy (memory never)
unfolding memory_exec
memory-IsHealthy = record { answers = λ c s. refl }

-- A server that runs every command, while the client waits in vain for the replies that `lose` picks.
unfoldable pub forgetful_exec :
    (Command → Bool) → (c : Command) → (Bytes → Value) → Result (Answer c) × (Bytes → Value)
unfolding memory_exec
forgetful_exec lose c s =
    let (answer, s') = memory_exec never c s in
    (if lose c then err (network (codes "i/o timeout") nil_error) else answer, s')

abbrev pub forgetful : (Command → Bool) → Server
forgetful lose = record { Store = Bytes → Value; exec = forgetful_exec lose; value = λ s. s }

settled_cases :
    (c : Command) (v : Value)
    → (settle c v ≡ v) ⊎ ((a : Answer c) × (outcome c v ≡ ok a) × (settle c v ≡ effect c v))
settled_cases c v = elim (Result-cases (outcome c v)) [
  | inl (a, e) ↦ inr (a, e, rw (e, settle) refl)
  | inr (x, e) ↦ inl (rw (e, settle) refl)
]

pub forgetful-Laws : (lose : Command → Bool) → Laws (forgetful lose)
unfolding forgetful_exec memory_exec
forgetful-Laws lose = record {
  accepted = λ c s a e. elim (Bool-cases (lose c)) [
    | inl r ↦ ground (arith, bytes_eq_refl (key c))
    | inr r ↦ ground (arith, bytes_eq_refl (key c))
  ];
  failed = λ c s e h. rw (bytes_eq_refl (key c)) (settled_cases c (s (key c)));
  framed = λ c s k ne. ground (arith, eq_of_bytes_eq k (key c));
}
