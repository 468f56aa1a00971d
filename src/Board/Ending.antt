-- ===== src/Board/Ending.antt =====
-- The end of a job's run on a server that is up does what the board says.
use bullmq_go.Prelude.{Bytes, refl, Bool, ◌||◌, Option, none, some, if◌then◌else◌, arith}
use bullmq_go.Prelude.Int.{ℤ, pos, ◌+ℤ◌, leb_ℤ}
use bullmq_go.Errors.{Error, categorize_error}
use bullmq_go.Redis.{Server, Laws, IsHealthy}
use bullmq_go.Redis.Values.{hset, del, z_place, z_remove}
use bullmq_go.Keys
use bullmq_go.Keys.Distinct.{IsJobId, job_name, lock_name, logs_name}
use bullmq_go.Jobs.{Job, Codec}
use bullmq_go.Retry.{Float64, calculate_backoff}
use bullmq_go.Queue.Manage.{unix_milli}
use bullmq_go.Events.{emit_completed, emit_failed}
use bullmq_go.Worker.{Worker, WorkerOptions, keys_of}
use bullmq_go.Worker.Complete.{complete, store_return_value, delete_job}
use bullmq_go.Worker.Run.{is_permanent_category, move_to_failed, retry_job, handle_job_failure}
use bullmq_go.Invariant.Rules.{IsOwnEmitter}
use bullmq_go.Board.{leave, give_up, postpone, end_well, end_badly}
use bullmq_go.Board.Doing.{
  Does, same, Does-pure, Does-if, Does-then, Does-as, Does-aside, Does-emit, Does-leave,
  Does-leave_explained, Does-complete_at, Does-fail_at, Does-delay_to,
}

-- When a retry is due.
abbrev pub due_at : {A : Type 0} → (fl : Float64) → WorkerOptions → Job A → fl.F → ℤ → ℤ
due_at fl opts job random now = unix_milli (
    now
    +ℤ calculate_backoff fl (job.attempts_made +ℤ pos 1) opts.backoff_delay opts.max_backoff_delay
        random)

-- Whether a failure is the job's last.
abbrev pub is_final : {A : Type 0} → Job A → Error → Bool
is_final job e =
    is_permanent_category (categorize_error e) || leb_ℤ job.opts.attempts job.attempts_made

module _ {R : Server} (L : Laws R) (H : IsHealthy R) (C : Codec) (w : Worker)
    (o : IsOwnEmitter (keys_of w) w.event_emitter) where
  Does-delete_job :
      (id : Bytes) → IsJobId id → Does R (keys_of w) same (delete_job R C (keys_of w) id)
  unfolding delete_job
  Does-delete_job id i =
      let kb = keys_of w in
      Does-as
        (Does-then (Does-aside L kb (job_name id) (del (Keys.job kb id)) i refl refl refl) (
          Does-then (Does-aside L kb (lock_name id) (del (Keys.lock kb id)) i refl refl refl)
            (Does-aside L kb (logs_name id) (del (Keys.logs kb id)) i refl refl refl)))
        (λ b. refl)

  Does-store_return_value :
      (id : Bytes) (v : Option C.Any) (now : ℤ)
      → IsJobId id
      → Does R (keys_of w) same (store_return_value R C (keys_of w) id v now)
  unfolding store_return_value
  Does-store_return_value id none now i = Does-pure tt
  Does-store_return_value id (some v) now i =
      Does-aside L (keys_of w) (job_name id) (hset (Keys.job (keys_of w) id) _) i refl refl refl

  pub Does-complete :
      (job : Job C.Any) (v : Option C.Any) (now later : ℤ)
      → IsJobId job.id
      → Does R
          (keys_of w)
          (end_well job.opts.remove_on_complete job.id now)
          (complete R C w job v now later)
  unfolding complete emit_completed end_well
  Does-complete job v now later i =
      let kb = keys_of w in
      Does-as
        (Does-then (Does-leave_explained L kb H job.id i _) (
          Does-then (Does-store_return_value job.id v now i) (
            Does-then
              (Does-if job.opts.remove_on_complete same
                (λ b. record b { completed = z_place (job.id, now) (z_remove job.id b.completed) })
                _ _ (Does-delete_job job.id i) (Does-complete_at L kb H job.id i now))
              (Does-then
                (Does-aside L kb (lock_name job.id) (del (Keys.lock kb job.id)) i refl refl refl)
                (Does-emit L kb C w.event_emitter _ o)))))
        (λ b. ground arith)

  Does-move_to_failed :
      (job : Job C.Any) (e : Error) (now later : ℤ)
      → IsJobId job.id
      → Does R
          (keys_of w)
          (λ b. if job.opts.remove_on_fail then leave job.id b else give_up job.id now b)
          (move_to_failed R C w job e now later)
  unfolding move_to_failed emit_failed give_up
  Does-move_to_failed job e now later i =
      let kb = keys_of w in
      Does-as
        (Does-then (Does-leave L kb H job.id i) (
          Does-then
            (Does-aside L kb (lock_name job.id) (del (Keys.lock kb job.id)) i refl refl refl)
            (Does-then
              (Does-if job.opts.remove_on_fail same
                (λ b. record b { failed = z_place (job.id, now) (z_remove job.id b.failed) }) _ _
                (Does-aside L kb (job_name job.id) (del (Keys.job kb job.id)) i refl refl refl)
                (Does-as
                  (Does-then (Does-fail_at L kb H job.id i now) (
                    Does-aside L kb (job_name job.id) (hset (Keys.job kb job.id) _) i refl refl
                      refl))
                  (λ b. refl)))
              (Does-emit L kb C w.event_emitter _ o))))
        (λ b. ground arith)

  module _ (fl : Float64) where
    Does-retry_job :
        (job : Job C.Any) (random : fl.F) (now : ℤ)
        → IsJobId job.id
        → Does R
            (keys_of w)
            (postpone job.id (due_at fl w.opts job random now))
            (retry_job R C fl w job random now)
    unfolding retry_job postpone
    Does-retry_job job random now i =
        let kb = keys_of w in
        Does-as
          (Does-then (Does-leave L kb H job.id i) (
            Does-then (Does-delay_to L kb H job.id i (due_at fl w.opts job random now))
              (Does-aside L kb (job_name job.id) (hset (Keys.job kb job.id) _) i refl refl refl)))
          (λ b. refl)

    pub Does-handle_job_failure :
        (job : Job C.Any) (e : Error) (random : fl.F) (now later : ℤ)
        → IsJobId job.id
        → Does R
            (keys_of w)
            (end_badly
              (is_final job e)
              job.opts.remove_on_fail
              job.id
              (unix_milli now)
              (due_at fl w.opts job random now))
            (handle_job_failure R C fl w job e random now later)
    unfolding handle_job_failure end_badly
    Does-handle_job_failure job e random now later i =
        Does-if (is_final job e) _ _ _ _ (Does-move_to_failed job e (unix_milli now) later i)
          (Does-retry_job job random now i)
