-- ===== src/Board/Managing/Removing.antt =====
-- RemoveJob does what the board says.
use bullmq_go.Prelude.{Bytes, ◌≡◌, refl, ap, ◌∙◌, false, [], ◌∷◌, none, arith}
use bullmq_go.Redis.{Server, Laws, IsHealthy}
use bullmq_go.Redis.Values.{ok, del, lrem, zrem, absent}
use bullmq_go.Redis.Facts.{value_other, del_self}
use bullmq_go.Redis.Pipeline.{pipeline}
use bullmq_go.Keys
use bullmq_go.Keys.Distinct.{IsJobId, job_name, lock_name, logs_name, apart}
use bullmq_go.Queue.{Queue}
use bullmq_go.Queue.Manage.{remove_job}
use bullmq_go.Invariant.Keeps.{Consistent}
use bullmq_go.Board.{Board, view, discard, is_on}
use bullmq_go.Board.Members.{in_list-remove_all, in_set-z_remove}
use bullmq_go.Board.Doing.{Does, Does-as}
use bullmq_go.Board.Commands.{
  Does-pipeline_nil, Does-pipeline_cons, Does-drop_waiting, Does-drop_active, Does-drop_prioritized,
  Does-drop_delayed, Does-drop_completed, Does-drop_failed, Does-del_job, Does-del_lock,
  Does-del_logs,
}

is_on-discard : (id : Bytes) (b : Board) → is_on id (discard id b) ≡ false
unfolding discard
is_on-discard id b = ground (
  arith,
  in_list-remove_all id b.waiting,
  in_set-z_remove id b.prioritized,
  in_set-z_remove id b.delayed,
  in_list-remove_all id b.active,
  in_set-z_remove id b.completed,
  in_set-z_remove id b.failed,
)

module _ {R : Server} (L : Laws R) (H : IsHealthy R) (q : Queue) where
  Does-removal :
      (id : Bytes)
      → IsJobId id
      → Does R q.key_builder (discard id) (
          pipeline R (
            lrem (Keys.wait q.key_builder) 0 id
            ∷ lrem (Keys.active q.key_builder) 0 id
            ∷ zrem (Keys.prioritized q.key_builder) id
            ∷ zrem (Keys.delayed q.key_builder) id
            ∷ zrem (Keys.completed q.key_builder) id
            ∷ zrem (Keys.failed q.key_builder) id
            ∷ del (Keys.job q.key_builder id)
            ∷ del (Keys.lock q.key_builder id)
            ∷ del (Keys.logs q.key_builder id)
            ∷ []))
  unfolding discard
  Does-removal id i =
      let kb = q.key_builder in
      let nil = Does-pipeline_nil {R = R} kb in
      Does-as
        (Does-pipeline_cons kb _ _ _ _ (Does-drop_waiting L H kb id) (
          Does-pipeline_cons kb _ _ _ _ (Does-drop_active L H kb id) (
            Does-pipeline_cons kb _ _ _ _ (Does-drop_prioritized L H kb id) (
              Does-pipeline_cons kb _ _ _ _ (Does-drop_delayed L H kb id) (
                Does-pipeline_cons kb _ _ _ _ (Does-drop_completed L H kb id) (
                  Does-pipeline_cons kb _ _ _ _ (Does-drop_failed L H kb id) (
                    Does-pipeline_cons kb _ _ _ _ (Does-del_job L H kb id i) (
                      Does-pipeline_cons kb _ _ _ _ (Does-del_lock L H kb id i)
                        (Does-pipeline_cons kb _ _ _ _ (Does-del_logs L H kb id i) nil)))))))))
        (λ b. refl)

  -- On a server that is up and where the queue's data is consistent, RemoveJob succeeds: the job
  -- is in no place of the board, no other job has moved, and the job's hash, lock and log are gone.
  pub remove_job-discard :
      (id : Bytes) (s : R.Store)
      → IsJobId id
      → Consistent R q.key_builder none s
      → let (r, s') = remove_job R q id s in
        (r ≡ ok tt)
        × (view R q.key_builder s' ≡ discard id (view R q.key_builder s))
        × (is_on id (view R q.key_builder s') ≡ false)
        × (R.value s' (Keys.job q.key_builder id) ≡ absent)
        × (R.value s' (Keys.lock q.key_builder id) ≡ absent)
        × (R.value s' (Keys.logs q.key_builder id) ≡ absent)
  unfolding remove_job
  remove_job-discard id s i h =
      let kb = q.key_builder in
      let does = Does-removal id i in
      (
        (does.succeeds s h).1,
        does.moves s h,
        ap (is_on id) (does.moves s h) ∙ is_on-discard id (view R kb s),
        value_other L _ _ _ (apart kb (job_name id) (logs_name id) i i refl)
            ∙ value_other L _ _ _ (apart kb (job_name id) (lock_name id) i i refl)
            ∙ del_self L H (Keys.job kb id) _,
        value_other L _ _ _ (apart kb (lock_name id) (logs_name id) i i refl)
            ∙ del_self L H (Keys.lock kb id) _,
        del_self L H (Keys.logs kb id) _,
      )
