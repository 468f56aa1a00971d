-- ===== src/Examples/Sharing.antt =====
-- Two workers of one queue and two jobs that wait, and a worker without a lock duration.
use bullmq_go.Prelude.{
  refl, ◌≡◌, [], ◌∷◌, codes, none, false, bytes_eq, Bytes, arith, contains_byte,
}
use bullmq_go.Redis.Values.{err, invalid_expire, Value, Result, list, text, h_get}
use bullmq_go.Redis.Memory.{memory, memory-Laws, memory-IsHealthy, never}
use bullmq_go.Errors.{wrapped}
use bullmq_go.Prelude.Int.{pos}
use bullmq_go.Keys
use bullmq_go.Keys.Distinct.{wait_name, is_reserved}
use bullmq_go.Worker.{Worker, keys_of, new_worker, default_worker_options}
use bullmq_go.Worker.Run.{Pickup, pickup_job}
use bullmq_go.Invariant.Fits.{all_ids, z_has}
use bullmq_go.Invariant.Keeps.{Consistent}
use bullmq_go.Board.{pick, is_on, took, view, in_list, no_repeats}
use bullmq_go.Board.Popping.{picked}
use bullmq_go.Board.Serving.{line}
use bullmq_go.Board.Losing.{pickup_job-loses}
use bullmq_go.Board.Sharing.{pickup_job-pickup_job}
use bullmq_go.Examples.{single, mailer, mail, first_id, second_id}
use bullmq_go.Examples.Reading.{nothing_yet, nothing_yet-Consistent}
use bullmq_go.Examples.Managing.{with_value, with_value-Consistent}

abbrev helper : Worker
helper = new_worker (codes "mail") single default_worker_options (codes "w2")

abbrev two_wait : Bytes → Value
two_wait = with_value wait_name (list (second_id ∷ first_id ∷ [])) nothing_yet

two_wait-Consistent : Consistent (memory never) mail none two_wait
unfolding all_ids contains_byte is_reserved bytes_eq
two_wait-Consistent = with_value-Consistent wait_name _ _ tt refl nothing_yet-Consistent

abbrev first_pickup : Result Pickup × (Bytes → Value)
first_pickup = pickup_job (memory never) mailer (codes "t1") two_wait

abbrev second_pickup : Result Pickup × (Bytes → Value)
second_pickup = pickup_job (memory never) helper (codes "t2") first_pickup.1

pickup_job-pickup_job_example :
    (picked first_pickup.0 ≡ took first_id)
    × (picked second_pickup.0 ≡ took second_id)
    × (bytes_eq first_id second_id ≡ false)
    × (line (view (memory never) mail second_pickup.1) ≡ [])
    × (second_pickup.1 (Keys.lock mail first_id) ≡ text (codes "t1"))
    × (second_pickup.1 (Keys.lock mail second_id) ≡ text (codes "t2"))
unfolding new_worker default_worker_options bytes_eq Keys.wait keys_of line z_has Keys.prioritized
    Keys.meta no_repeats in_list h_get
pickup_job-pickup_job_example =
    pickup_job-pickup_job (memory-Laws never) memory-IsHealthy mailer helper (codes "t1")
      (codes "t2") two_wait first_id second_id [] (omega arith) (omega arith) refl refl refl
      two_wait-Consistent (record { running = refl; no_empty = refl }) refl refl

-- Its options leave the lock duration out.
abbrev careless : Worker
careless =
    new_worker (codes "mail") single (record default_worker_options { lock_duration = pos 0 })
      (codes "w3")

abbrev lost : Result Pickup × (Bytes → Value)
lost = pickup_job (memory never) careless (codes "t3") two_wait

pickup_job-loses_example :
    (lost.0 ≡ err (wrapped (codes "failed to acquire lock") invalid_expire))
    × (view (memory never) mail lost.1 ≡ record (pick (view (memory never) mail two_wait)).1 {
      active = (view (memory never) mail two_wait).active;
    })
    × (line (view (memory never) mail lost.1) ≡ second_id ∷ [])
    × (is_on first_id (view (memory never) mail lost.1) ≡ false)
unfolding new_worker default_worker_options bytes_eq Keys.wait keys_of line z_has Keys.prioritized
    Keys.meta no_repeats in_list h_get Keys.active Keys.delayed Keys.completed Keys.failed
pickup_job-loses_example =
    pickup_job-loses (memory-Laws never) memory-IsHealthy careless two_wait (codes "t3") first_id
      (second_id ∷ []) (omega arith) refl two_wait-Consistent
      (record { running = refl; no_empty = refl }) refl refl
