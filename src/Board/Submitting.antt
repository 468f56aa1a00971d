-- ===== src/Board/Submitting.antt =====
-- `Add` on a server that is up puts the job where the board says.
use bullmq_go.Prelude.{
  Bytes, ◌≡◌, refl, ap, ◌∙◌, Bool-cases, inl, inr, List, [], none, arith, ==_iff,
}
use bullmq_go.Prelude.Int.{ℤ, pos, ◌+ℤ◌, ◌-ℤ◌, ltb_ℤ}
use mathlib.Core.List.{reverse, reverse-cons}
use bullmq_go.Redis.{Server, Laws, IsHealthy}
use bullmq_go.Redis.Values.{Result, ok, lpush, zadd, xadd, items, members}
use bullmq_go.Redis.Action.{explain, reject, ignore, pure}
use bullmq_go.Redis.Touches.{Touches-reject}
use bullmq_go.Redis.Facts.{lpush_self, zadd_self}
use bullmq_go.Keys
use bullmq_go.Keys.{new_key_builder}
use bullmq_go.Keys.Distinct.{
  key_of, apart, tag, IsJobId, job_name, prioritized_name, wait_name, delayed_name, events_name,
}
use bullmq_go.Jobs.{JobOptions, Job, Codec}
use bullmq_go.Jobs.Validation.{validate_job_options, validate_job_payload_size}
use bullmq_go.Events.{emit_waiting, emit}
use bullmq_go.Queue.{Queue, apply_defaults, new_job, store_job_hash, enqueue_job, add}
use bullmq_go.Queue.Submit.{IsOwnQueue, bind-step, ok_injective, store_job_hash-Touches}
use bullmq_go.Invariant.Keeps.{Consistent, Keeps-reject}
use bullmq_go.Invariant.Queues.{Keeps-store_job_hash}
use bullmq_go.Board.{values, view, submit}
use bullmq_go.Board.Views.{view-exec, view-same, board_of-cong, as_list-fits, as_zset-fits}

module _ {R : Server} (L : Laws R) (H : IsHealthy R) (C : Codec) (q : Queue) where
  view-enqueue_job :
      (job : Job C.Any) (s : R.Store)
      → Consistent R q.key_builder none s
      → view R q.key_builder (enqueue_job R C q job s).1 ≡ submit job (view R q.key_builder s)
  unfolding enqueue_job submit
  view-enqueue_job job s h =
      let kb = q.key_builder in
      elim (Bool-cases (ltb_ℤ (pos 0) job.delay)) [
        | inl later ↦
            let placed = zadd (Keys.delayed kb) (job.timestamp +ℤ job.delay) job.id in
            rw later (
              view-exec L kb placed s delayed_name tt refl refl
              ∙ ap (λ v. record (view R kb s) { delayed = members v })
                  (zadd_self L H (Keys.delayed kb) _ job.id s _
                    (as_zset-fits none _ (h.at delayed_name tt))))
        | inr now ↦ elim (Bool-cases (ltb_ℤ (pos 0) job.opts.priority)) [
          | inl high ↦
              let placed = zadd (Keys.prioritized kb) (pos 0 -ℤ job.opts.priority) job.id in
              rw (now, high)
                (view-exec L kb placed s prioritized_name tt refl refl
                  ∙ ap (λ v. record (view R kb s) { prioritized = members v })
                      (zadd_self L H (Keys.prioritized kb) _ job.id s _
                        (as_zset-fits none _ (h.at prioritized_name tt))))
          | inr low ↦
              rw (now, low)
                (view-exec L kb (lpush (Keys.wait kb) job.id) s wait_name tt refl refl
                  ∙ ap (λ v. record (view R kb s) { waiting = reverse (items v) })
                      (lpush_self L H (Keys.wait kb) job.id s _
                        (as_list-fits _ (h.at wait_name tt)))
                  ∙ ap (λ xs. record (view R kb s) { waiting = xs })
                      (reverse-cons job.id (items (R.value s (Keys.wait kb)))))
        ]
      ]

  -- On a server that is up and where the queue's data is consistent, for a queue whose events go
  -- to its own stream and an id like those of `Add`: when `Add` returns a job, the job is due later
  -- where it has a delay, else in its place by priority where it has one, else behind all that
  -- wait; no other job moves.
  pub add-submit :
      IsOwnQueue q
      → (name : Bytes) (payload : List (Bytes × C.Any)) (given : JobOptions) (id : Bytes)
        (now later : ℤ)
      → IsJobId id
      → (s : R.Store) (job : Job C.Any) → Consistent R q.key_builder none s
      → (add R C q name payload given id now later s).0 ≡ ok job
      → view R q.key_builder (add R C q name payload given id now later s).1
        ≡ submit job (view R q.key_builder s)
  unfolding add explain ignore pure emit_waiting emit
  add-submit o name payload given id now later i s job c h =
      let made = new_job R C id name payload (apply_defaults given) now in
      let s1 = (reject {St = R.Store} (validate_job_options C (apply_defaults given)) s).1 in
      let s2 = (reject {St = R.Store} (validate_job_payload_size C made) s1).1 in
      let s3 = (store_job_hash R C q made s2).1 in
      let s4 = (enqueue_job R C q made s3).1 in
      let (u1, e1, q1, h1) = bind-step _ _ s job h in
      let (u2, e2, q2, h2) = bind-step _ _ s1 job h1 in
      let (u3, e3, q3, h3) = bind-step _ _ s2 job h2 in
      let (u4, e4, q4, h4) = bind-step _ _ s3 job h3 in
      let (u5, e5, q5, h5) = bind-step _ _ s4 job h4 in
      let kb = q.key_builder in
      let c2 =
        (Keeps-reject {I = Consistent R kb none} (validate_job_payload_size C made)).keeps s1 (
          (Keeps-reject {I = Consistent R kb none}
              (validate_job_options C (apply_defaults given))).keeps
            s c) in
      let c3 =
        (Keeps-store_job_hash L C none q (record { same_events = o.same_events }) made i).keeps s2
          c2 in
      let checked = view-same R kb s s2 λ k.
        (Touches-reject {R = R} {ks = []} (validate_job_payload_size C made)).keeps s1 k tt
        ∙ (Touches-reject {R = R} {ks = []} (validate_job_options C (apply_defaults given))).keeps s
            k tt in
      let stored = board_of-cong (values R kb s3) (values R kb s2) λ n v p.
        (store_job_hash-Touches L C q made).keeps s2 (key_of kb n)
          (apart kb n (job_name id) v i (ground (arith, ==_iff (tag n) 8)), tt) in
      let told =
        view-exec L kb
          (xadd
            (Keys.events (new_key_builder q.event_emitter.queue_name q.event_emitter.redis_client))
            q.event_emitter.max_len _)
          s4 events_name tt refl o.same_events in
      ap (λ (p : Result (Job C.Any) × R.Store). view R kb p.1) (q1 ∙ q2 ∙ q3 ∙ q4 ∙ q5)
      ∙ told
      ∙ view-enqueue_job made s3 c3
      ∙ ap (submit made) (stored ∙ checked)
      ∙ ap (λ (j : Job C.Any). submit j (view R kb s)) (ok_injective made job h5)
