-- ===== src/Examples/Racing.antt =====
-- A check of the stalled jobs that races with the end of a job, heartbeats, and worker ids.
use bullmq_go.Prelude.{
  ℕ, refl, ◌≡◌, ◌≢◌, [], ◌∷◌, codes, none, some, true, bytes_eq, Bytes, arith, contains_byte, List,
}
use bullmq_go.Prelude.Int.{pos, negsuc}
use bullmq_go.Redis.Values.{Value, Result, ok, list, lrange, outcome, range}
use bullmq_go.Redis.Memory.{memory, memory-Laws, memory-IsHealthy, never, memory_exec}
use bullmq_go.Keys
use bullmq_go.Keys.Distinct.{active_name, is_reserved}
use bullmq_go.Worker.{keys_of, new_worker, default_worker_options}
use bullmq_go.Worker.Complete.{complete}
use bullmq_go.Worker.Stalled.{check_each}
use bullmq_go.Worker.Stalled.Races.{check_each-complete}
use bullmq_go.Worker.Heartbeat.{Wake, tick, context_done, heartbeat_loop, new_heartbeat_manager}
use bullmq_go.Worker.Heartbeat.Loops.{ticks, EndsWith, heartbeat_loop_stolen, heartbeat_loop_own}
use bullmq_go.Worker.Identity.{Rand, generate_worker_id, generate_worker_id-ne}
use bullmq_go.Invariant.Fits.{all_ids}
use bullmq_go.Invariant.Keeps.{Consistent}
use bullmq_go.Board.{view, in_list, in_set}
use bullmq_go.Examples.{
  plain_codec, mailer, mailer-IsOwn, mail, first_id, first_id-IsJobId, letter, busy,
}
use bullmq_go.Examples.Reading.{nothing_yet, nothing_yet-Consistent}
use bullmq_go.Examples.Managing.{with_value, with_value-Consistent}

abbrev running_mail : Bytes → Value
running_mail = with_value active_name (list (first_id ∷ [])) nothing_yet

running_mail-Consistent : Consistent (memory never) mail none running_mail
unfolding all_ids contains_byte is_reserved bytes_eq
running_mail-Consistent = with_value-Consistent active_name _ _ tt refl nothing_yet-Consistent

abbrev listed : Bytes → Value
listed = ((memory never).exec (lrange (Keys.active mail) (pos 0) (negsuc 0)) running_mail).1

abbrev ended : Result (Unit {0}) × (Bytes → Value)
ended = complete (memory never) plain_codec mailer letter none (pos 7) (pos 8) listed

abbrev checked : Result ℕ × (Bytes → Value)
checked = check_each (memory never) plain_codec mailer (λ id. pos 9) (first_id ∷ []) 0 ended.1

check_each-complete_example :
    (ended.0 ≡ ok tt)
    × (checked.0 ≡ ok 1)
    × (in_set first_id (view (memory never) mail checked.1).completed ≡ true)
    × (in_list first_id (view (memory never) mail checked.1).waiting ≡ true)
unfolding new_worker default_worker_options bytes_eq memory_exec outcome Keys.active keys_of range
check_each-complete_example =
    check_each-complete (memory-Laws never) memory-IsHealthy plain_codec mailer (λ id. pos 9)
      mailer-IsOwn letter none (pos 7) (pos 8) 0 running_mail first_id-IsJobId refl (omega arith)
      running_mail-Consistent refl

-- Two ticks, then the end; others do nothing in between.
abbrev two_ticks : List (Wake (Bytes → Value))
two_ticks = tick (λ s. s) ∷ tick (λ s. s) ∷ context_done ∷ []

heartbeat_loop_stolen_example : EndsWith (memory never) (Keys.lock mail first_id) 2 (codes "t1") (
    heartbeat_loop
      (memory never)
      mailer
      (Keys.lock mail first_id)
      first_id
      (codes "t9")
      two_ticks
      new_heartbeat_manager
      busy)
unfolding bytes_eq Keys.lock keys_of new_worker Keys.active Keys.wait Keys.job ticks
    new_heartbeat_manager
heartbeat_loop_stolen_example =
    heartbeat_loop_stolen (memory-Laws never) memory-IsHealthy mailer (Keys.lock mail first_id)
      first_id (codes "t9") two_ticks (codes "t1") new_heartbeat_manager busy refl (omega arith)
      refl (λ s h. h, (λ s h. h, tt))

heartbeat_loop_own_example : EndsWith (memory never) (Keys.lock mail first_id) 0 (codes "t1") (
    heartbeat_loop
      (memory never)
      mailer
      (Keys.lock mail first_id)
      first_id
      (codes "t1")
      two_ticks
      new_heartbeat_manager
      busy)
unfolding bytes_eq Keys.lock keys_of new_worker Keys.active Keys.wait Keys.job
    default_worker_options new_heartbeat_manager
heartbeat_loop_own_example =
    heartbeat_loop_own (memory-Laws never) memory-IsHealthy mailer (Keys.lock mail first_id)
      first_id (codes "t1") two_ticks 30_000_000_000 new_heartbeat_manager busy refl (omega arith)
      refl (λ s h. h, (λ s h. h, tt))

abbrev three_bytes : ℕ → Rand
three_bytes b n = some (1 ∷ 2 ∷ b ∷ [])

one-ne-two : ◌≢◌ {A = Bytes} (1 ∷ 2 ∷ 254 ∷ []) (1 ∷ 2 ∷ 255 ∷ [])
one-ne-two e = ground arith

generate_worker_id-ne_example :
    generate_worker_id (λ n. codes "17") (some (codes "host")) (pos 17) (three_bytes 254)
    ≢ generate_worker_id (λ n. codes "17") (some (codes "host")) (pos 17) (three_bytes 255)
generate_worker_id-ne_example =
    generate_worker_id-ne (λ n. codes "17") (some (codes "host")) (pos 17) (three_bytes 254)
      (three_bytes 255) (1 ∷ 2 ∷ 254 ∷ []) (1 ∷ 2 ∷ 255 ∷ []) refl refl (omega arith) (omega arith)
      one-ne-two
