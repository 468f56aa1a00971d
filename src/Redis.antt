-- ===== src/Redis.antt =====
-- The Redis server that the package talks to through go-redis: a parameter of the model.
-- `Command` lists the commands that pkg/bullmq sends; what a server answers and how it changes is
-- the record `Server`, and `Laws` and `IsHealthy` state the documented behaviour that the theorems
-- rely on. The children give the monad of calls and an instance in memory.
pub mod Values
pub mod Action
pub mod Memory
pub mod Facts
pub mod Replies
pub mod Pipeline
pub mod Touches
use bullmq_go.Prelude.{Bytes, ◌≡◌, ◌≢◌, ◌⊎◌}
use bullmq_go.Errors.{Error}
use Values.{Value, Command, Answer, Result, ok, err, key, outcome, effect}

pub record Server : Type 1 where
  pub Store : Type 0
  -- One command of the client: what its Result() returns, and the server afterwards.
  pub exec : (c : Command) → Store → Result (Answer c) × Store
  -- What a key holds.
  pub value : Store → Bytes → Value

-- A command touches its key alone, and when it is accepted it does what its documentation says. When
-- the client returns an error, either the command was not run and nothing changed, or it was run and
-- its reply was lost, as after a timeout. The client sends a command once, as with MaxRetries off.
pub record Laws (R : Server) : Type 0 where
  pub accepted :
      (c : Command) (s : R.Store) (a : Answer c)
      → (R.exec c s).0 ≡ ok a
      → (outcome c (R.value s (key c)) ≡ ok a)
        × (R.value (R.exec c s).1 (key c) ≡ effect c (R.value s (key c)))
  pub failed :
      (c : Command) (s : R.Store) (e : Error)
      → (R.exec c s).0 ≡ err e
      → (R.value (R.exec c s).1 (key c) ≡ R.value s (key c))
        ⊎ ((a : Answer c) × (outcome c (R.value s (key c)) ≡ ok a)
            × (R.value (R.exec c s).1 (key c) ≡ effect c (R.value s (key c))))
  pub framed :
      (c : Command) (s : R.Store) (k : Bytes) → k ≢ key c → R.value (R.exec c s).1 k ≡ R.value s k

-- The connection is up: a command is refused only where the value has another type, where there is
-- no value to return, or where SETEX is given a time to live that is not above 0.
pub record IsHealthy (R : Server) : Type 0 where
  pub answers : (c : Command) (s : R.Store) → (R.exec c s).0 ≡ outcome c (R.value s (key c))
