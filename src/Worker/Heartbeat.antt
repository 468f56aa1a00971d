-- ===== src/Worker/Heartbeat.antt =====
-- pkg/bullmq/heartbeat.go: the lock script, and the manager's map of running heartbeats.
pub mod Locks
pub mod Loops
use bullmq_go.Prelude.{
  ℕ, ◌+◌, ◌/◌, ◌%◌, ◌^◌, ◌==◌, Bytes, bytes_eq, ◌++◌, List, [], ◌∷◌, Option, none, some,
  if◌then◌else◌,
}
use bullmq_go.Prelude.Int.{ℤ, pos, negsuc, sub_ℕ}
use bullmq_go.Errors.{is_redis_nil}
use bullmq_go.Redis.{Server}
use bullmq_go.Redis.Values.{Result, ok, err, get, expire}
use bullmq_go.Redis.Action.{◌>>=◌, Action, pure, fail, attempt}
use bullmq_go.Worker.{Worker}

-- int(d.Seconds()): whole seconds of a duration in nanoseconds, towards zero.
unfoldable pub whole_seconds : ℤ → ℤ
whole_seconds (pos n) = pos (n / 1000000000)
whole_seconds (negsuc n) = sub_ℕ 0 ((n + 1) / 1000000000)

module _ (R : Server) where
  open R use {Store, exec}

  -- The Lua script: compare the token, then extend. A missing key is no token.
  unfoldable pub extend_lock : Worker → Bytes → Bytes → Action Store ℕ
  unfolding whole_seconds
  extend_lock w lock_key token = do
    answer ← attempt (exec (get lock_key))
    elim answer [
      | err e ↦ if is_redis_nil e then pure 0 else fail e
      | ok current ↦
          if bytes_eq current token
          then exec (expire lock_key (whole_seconds w.opts.lock_duration))
          else pure 0
    ]

-- A heartbeat loop is known by a number; `cancelled` are the loops whose context is cancelled.
pub record HeartbeatManager : Type 0 where
  pub active_locks : List (Bytes × ℕ)
  pub cancelled : List ℕ
  pub next_loop : ℕ
  pub failure_count : ℕ

unfoldable pub loop_of : Bytes → List (Bytes × ℕ) → Option ℕ
loop_of id [] = none
loop_of id (e ∷ m) = if bytes_eq e.0 id then some e.1 else loop_of id m

unfoldable pub without : Bytes → List (Bytes × ℕ) → List (Bytes × ℕ)
without id [] = []
without id (e ∷ m) = let rest = without id m in if bytes_eq e.0 id then rest else e ∷ rest

abbrev pub cancel : Option ℕ → List ℕ → List ℕ
cancel none ns = ns
cancel (some n) ns = n ∷ ns

unfoldable pub new_heartbeat_manager : HeartbeatManager
new_heartbeat_manager = record {
  active_locks = [];
  cancelled = [];
  next_loop = 0;
  failure_count = 0;
}

unfoldable pub start_heartbeat : HeartbeatManager → Bytes → HeartbeatManager
unfolding loop_of without
start_heartbeat hm id = record hm {
  active_locks = (id, hm.next_loop) ∷ without id hm.active_locks;
  cancelled = cancel (loop_of id hm.active_locks) hm.cancelled;
  next_loop = hm.next_loop + 1;
}

unfoldable pub stop_heartbeat : HeartbeatManager → Bytes → HeartbeatManager
unfolding loop_of without
stop_heartbeat hm id = record hm {
  active_locks = without id hm.active_locks;
  cancelled = cancel (loop_of id hm.active_locks) hm.cancelled;
}

-- The end of any loop for a job: its deferred StopHeartbeat.
unfoldable pub loop_exit : HeartbeatManager → Bytes → HeartbeatManager
unfolding stop_heartbeat
loop_exit hm id = stop_heartbeat hm id

-- A tick of a loop, by what the lock's extension returned.
unfoldable pub count_tick : HeartbeatManager → Result ℕ → HeartbeatManager
count_tick hm (ok n) =
    if n == 0 then record hm { failure_count = (hm.failure_count + 1) % 2 ^ 64 } else hm
count_tick hm (err e) = record hm { failure_count = (hm.failure_count + 1) % 2 ^ 64 }

-- What the loop's select picks: the end of its context, the end of the manager, or a tick. Before a
-- tick others have changed the server.
pub data Wake (St : Type 0) : Type 0 where
  context_done manager_stopped : Wake St
  tick : (St → St) → Wake St

module _ (R : Server) where
  open R use {Store}

  -- The loop on the key of the lock, up to its end or to where it waits again.
  unfoldable pub heartbeat_loop :
      Worker
      → Bytes
      → Bytes
      → Bytes
      → List (Wake Store)
      → HeartbeatManager
      → Action Store HeartbeatManager
  unfolding count_tick loop_exit
  heartbeat_loop w lock_key id token [] hm s = pure hm s
  heartbeat_loop w lock_key id token (context_done ∷ wakes) hm s = pure (loop_exit hm id) s
  heartbeat_loop w lock_key id token (manager_stopped ∷ wakes) hm s = pure (loop_exit hm id) s
  heartbeat_loop w lock_key id token (tick others ∷ wakes) hm s =
      let (result, s') = extend_lock R w lock_key token (others s) in
      heartbeat_loop w lock_key id token wakes (count_tick hm result) s'

abbrev loops : List (Bytes × ℕ) → List ℕ
loops [] = []
loops (e ∷ m) = e.1 ∷ loops m

unfoldable pub stop_all : HeartbeatManager → HeartbeatManager
stop_all hm = record hm { active_locks = []; cancelled = loops hm.active_locks ++ hm.cancelled }
