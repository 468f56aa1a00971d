-- ===== src/Examples/Steps.antt =====
-- A worker and its queue, some steps from the start.
use bullmq_go.Prelude.{
  ◌%◌, arith, refl, sym, subst, ◌≡◌, [], ◌∷◌, codes, none, some, true, false, bytes_eq,
  bytes_eq_refl, eq_of_bytes_eq, Bytes, Option, Bool-cases, inl, inr, if◌then◌else◌, contains_byte,
}
use bullmq_go.Prelude.Int.{pos}
use bullmq_go.Redis.Values.{Value, absent, list, zset, members, outcome, h_get, pop_last, effect}
use bullmq_go.Redis.Memory.{memory, memory-Laws, never, memory_exec}
use bullmq_go.Keys
use bullmq_go.Keys.Distinct.{
  KeyName, key_of, delayed_name, wait_name, key_of-injective, is_reserved,
}
use bullmq_go.Worker.Start.{
  keys_validated, keys_apart, validate_cluster_compatibility, LoopState, Pass, returned, again,
  new_loop, loop_pass,
}
use bullmq_go.Keys.{cluster}
use bullmq_go.Cluster.{calculate_crc16, redis_cluster_slots, hash_tag, validate_hash_tags}
use bullmq_go.Cluster.Slots.{name_tag}
use bullmq_go.Worker.Slots.{validate_cluster_compatibility-cluster}
use bullmq_go.Worker.Run.{pickup_job}
use bullmq_go.Invariant.Fits.{shape, fits, z_has, all_members, all_ids}
use bullmq_go.Invariant.Keeps.{Consistent}
use bullmq_go.Invariant.Running.{IsElsewhere}
use bullmq_go.Queue.{Queue}
use bullmq_go.Worker.{keys_of, new_worker, default_worker_options}
use bullmq_go.Events.{new_event_emitter}
use bullmq_go.Redis.Action.{◌>>=◌}
use bullmq_go.Errors.{is_empty}
use bullmq_go.System.{WorksOn, passes, Reach, begins, steps}
use bullmq_go.System.Sound.{IsSound, Reach-IsSound}
use bullmq_go.System.Delayed.{Reach-delayed}
use bullmq_go.Examples.{plain_codec, tenths, mailer, mail, first_id, second_id}

-- One job waits, the other is delayed.
abbrev pub later_mail : Bytes → Value
later_mail k =
    if bytes_eq k (Keys.wait mail)
    then list (first_id ∷ [])
    else if bytes_eq k (Keys.delayed mail)
    then zset ((second_id, pos 9) ∷ [])
    else absent

fits-absent :
    (kept : Option Bytes) (n : KeyName)
    → bytes_eq (key_of mail n) (Keys.delayed mail) ≡ false
    → fits (shape kept n) absent ≡ true
fits-absent kept delayed_name e = cc (bytes_eq_refl (Keys.delayed mail))
fits-absent kept wait_name e = refl
fits-absent kept n e = refl

waits-fits :
    (kept : Option Bytes) → fits (shape kept wait_name) (later_mail (Keys.wait mail)) ≡ true
unfolding bytes_eq Keys.wait keys_of new_worker all_ids contains_byte is_reserved
waits-fits kept = refl

pub later_mail-Consistent :
    (kept : Option Bytes)
    → fits (shape kept delayed_name) (later_mail (Keys.delayed mail)) ≡ true
    → Consistent (memory never) mail kept later_mail
later_mail-Consistent kept h = record {
  at = λ n v. elim (Bool-cases (bytes_eq (key_of mail n) (Keys.wait mail))) [
    | inl waits ↦
        subst (λ m. fits (shape kept m) (later_mail (key_of mail m)) ≡ true)
          (key_of-injective mail wait_name n tt v (sym (eq_of_bytes_eq _ _ waits)))
          (waits-fits kept)
    | inr other ↦ elim (Bool-cases (bytes_eq (key_of mail n) (Keys.delayed mail))) [
      | inl delays ↦
          subst (λ m. fits (shape kept m) (later_mail (key_of mail m)) ≡ true)
            (key_of-injective mail delayed_name n tt v (sym (eq_of_bytes_eq _ _ delays))) h
      | inr gone ↦ rw (other, gone) (fits-absent kept n gone)
    ]
  ];
}

no_results : (q : Queue) → mailer.results_queue ≡ some q → IsElsewhere (keys_of mailer) q
unfolding new_worker default_worker_options
no_results q e = cc_empty e
  where
    cc_empty : none ≡ some q → IsElsewhere (keys_of mailer) q
    cc_empty h = cc

pub mailer-WorksOn : WorksOn mail mailer
unfolding keys_of new_worker new_event_emitter
mailer-WorksOn = record {
  same_keys = refl;
  own_events = record { same_events = refl };
  elsewhere = record { elsewhere = no_results };
}

abbrev next_state : Pass (Bytes → Value) → LoopState (Bytes → Value)
next_state (again sleep l) = l
next_state (returned r) = new_loop later_mail

abbrev one_runs : LoopState (Bytes → Value)
one_runs = next_state (loop_pass (memory never) mailer (codes "t1") true (new_loop later_mail))

one_runs-Reach :
    (kept : Option Bytes) → Reach (memory never) plain_codec tenths mailer kept later_mail one_runs
unfolding loop_pass new_loop new_worker default_worker_options pickup_job ◌>>=◌ memory_exec outcome
    bytes_eq Keys.meta keys_of Keys.wait Keys.delayed h_get Keys.prioritized pop_last Keys.active
    Keys.lock effect is_empty
one_runs-Reach kept = steps begins (passes {l' = one_runs} (codes "t1") true (pos 0) refl)

Reach-IsSound_example : IsSound (memory never) mailer none one_runs
unfolding bytes_eq Keys.delayed keys_of new_worker Keys.wait all_members contains_byte is_reserved
Reach-IsSound_example =
    Reach-IsSound (memory-Laws never) plain_codec tenths mailer none mailer-WorksOn later_mail
      one_runs (later_mail-Consistent none refl) (one_runs-Reach none)

Reach-delayed_example : z_has second_id (members (one_runs.store (Keys.delayed mail))) ≡ true
unfolding bytes_eq Keys.delayed keys_of new_worker Keys.wait all_members contains_byte is_reserved
    z_has
Reach-delayed_example =
    Reach-delayed (memory-Laws never) plain_codec tenths mailer second_id later_mail one_runs
      mailer-WorksOn (later_mail-Consistent (some second_id) refl) (one_runs-Reach (some second_id))

validate_cluster_compatibility-cluster_example :
    validate_cluster_compatibility (record mailer { redis_client = cluster })
    ≡ keys_validated (calculate_crc16 (codes "mail") % redis_cluster_slots)
unfolding name_tag new_worker
validate_cluster_compatibility-cluster_example =
    validate_cluster_compatibility-cluster (record mailer { redis_client = cluster }) refl
      (omega arith)

-- A worker on a single server warns of keys in different slots.
single_server_warns : validate_cluster_compatibility mailer ≡ keys_apart
unfolding validate_cluster_compatibility validate_hash_tags calculate_crc16 hash_tag Keys.wait
    keys_of new_worker Keys.active
single_server_warns = refl
