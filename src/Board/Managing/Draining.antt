-- ===== src/Board/Managing/Draining.antt =====
-- Drain does what the board says.
use bullmq_go.Prelude.{
  ℕ, codes, Bytes, ◌≡◌, refl, ap, sym, ◌∙◌, true, List, [], ◌∷◌, ◌++◌, none, arith, length,
  if◌then◌else◌,
}
use bullmq_go.Redis.{Server, Laws, IsHealthy}
use bullmq_go.Redis.Values.{ok, del, absent, names, items, members, Command}
use bullmq_go.Redis.Action.{Action, explain, explained, pure, ◌>>◌, bind_of_ok}
use bullmq_go.Redis.Pipeline.{pipeline}
use bullmq_go.Keys
use bullmq_go.Keys.Distinct.{
  KeyName, IsJobId, wait_name, active_name, prioritized_name, delayed_name, completed_name,
  failed_name, events_name, key_of, IsValid,
}
use bullmq_go.Queue.{Queue}
use bullmq_go.Queue.Manage.{drain, del_jobs, add_ids}
use bullmq_go.Invariant.Fits.{shape, fits, ids, scores, all_ids, is_job_id-IsJobId}
use bullmq_go.Invariant.Keeps.{Consistent}
use bullmq_go.Invariant.Draining.{all_ids-add_ids}
use bullmq_go.Invariant.Effects.{all_ids-items, all_members-members}
use bullmq_go.Invariant.Replies.{all_ids-names}
use bullmq_go.Board.Managing.Listing.{LeadsTo, after_list, after_set}
use bullmq_go.Board.Managing.Merging.{
  in_list-add_ids, no_repeats-add_ids, add_ids_six, all_ids-append,
}
use bullmq_go.Board.Views.{view-same}
use bullmq_go.Board.{view, emptied, in_list, is_on, no_repeats}
use bullmq_go.Board.Members.{in_list-append, in_list-reverse, in_list-names}
use bullmq_go.Board.Doing.{Does, same, Does-as}
use bullmq_go.Board.Managing.Deleting.{IsOf, IsOf-other, del_jobs-value}
use bullmq_go.Board.Commands.{
  Does-pipeline_nil, Does-pipeline_cons, Does-del_job, Does-del_lock, Does-del_logs, Does-clear,
}

module _ {R : Server} (L : Laws R) (H : IsHealthy R) (q : Queue) where
  Does-del_jobs :
      (gone : List Bytes)
      → all_ids gone ≡ true
      → Does R q.key_builder same (pipeline R (del_jobs q.key_builder gone))
  unfolding del_jobs all_ids
  Does-del_jobs [] h = Does-pipeline_nil q.key_builder
  Does-del_jobs (id ∷ rest) h =
      let kb = q.key_builder in
      let i = is_job_id-IsJobId id (ground arith) in
      Does-pipeline_cons kb same same _ _ (Does-del_job L H kb id i) (
        Does-pipeline_cons kb same same _ _ (Does-del_lock L H kb id i) (
          Does-pipeline_cons kb same same _ _ (Does-del_logs L H kb id i)
            (Does-del_jobs rest (ground arith))))

  drain_commands : List Bytes → List Command
  drain_commands gone =
      del (Keys.wait q.key_builder)
      ∷ del (Keys.prioritized q.key_builder)
      ∷ del (Keys.delayed q.key_builder)
      ∷ del (Keys.active q.key_builder)
      ∷ del (Keys.completed q.key_builder)
      ∷ del (Keys.failed q.key_builder)
      ∷ del (Keys.events q.key_builder)
      ∷ del_jobs q.key_builder gone

  Does-drain_commands :
      (gone : List Bytes)
      → all_ids gone ≡ true
      → Does R q.key_builder emptied (pipeline R (drain_commands gone))
  unfolding emptied drain_commands
  Does-drain_commands gone h =
      let kb = q.key_builder in
      Does-as
        (Does-pipeline_cons kb (λ b. record b { waiting = [] }) _ _ _
          (Does-clear L H kb wait_name tt _ refl refl (λ g. refl))
          (Does-pipeline_cons kb (λ b. record b { prioritized = [] }) _ _ _
            (Does-clear L H kb prioritized_name tt _ refl refl (λ g. refl))
            (Does-pipeline_cons kb (λ b. record b { delayed = [] }) _ _ _
              (Does-clear L H kb delayed_name tt _ refl refl (λ g. refl))
              (Does-pipeline_cons kb (λ b. record b { active = [] }) _ _ _
                (Does-clear L H kb active_name tt _ refl refl (λ g. refl))
                (Does-pipeline_cons kb (λ b. record b { completed = [] }) _ _ _
                  (Does-clear L H kb completed_name tt _ refl refl (λ g. refl))
                  (Does-pipeline_cons kb (λ b. record b { failed = [] }) _ _ _
                    (Does-clear L H kb failed_name tt _ refl refl (λ g. refl))
                    (Does-pipeline_cons kb same _ _ _
                      (Does-clear L H kb events_name tt _ refl refl (λ g. refl))
                      (Does-del_jobs gone h))))))))
        (λ b. refl)

  -- The ids of all jobs of the queue, each once, and what Drain does with them.
  all_of : R.Store → List Bytes
  all_of s =
      let at = λ (n : KeyName). R.value s (key_of q.key_builder n) in
      items (at wait_name)
      ++ (names (members (at prioritized_name))
          ++ (names (members (at delayed_name))
              ++ (items (at active_name)
                  ++ (names (members (at completed_name)) ++ names (members (at failed_name))))))

  sweep_all : List Bytes → Action R.Store ℕ
  sweep_all gone =
      explain (codes "failed to drain queue") (pipeline R (drain_commands gone))
      >> pure (length gone)

  -- Drain adds one list after the other.
  merged :
      (s : R.Store)
      → let at = λ (n : KeyName). R.value s (key_of q.key_builder n) in
        add_ids
          (add_ids
            (add_ids
              (add_ids
                (add_ids
                  (add_ids [] (items (at wait_name)))
                  (names (members (at prioritized_name))))
                (names (members (at delayed_name))))
              (items (at active_name)))
            (names (members (at completed_name))))
          (names (members (at failed_name)))
        ≡ add_ids [] (all_of s)
  unfolding all_of
  merged s =
      let at = λ (n : KeyName). R.value s (key_of q.key_builder n) in
      add_ids_six (items (at wait_name)) (names (members (at prioritized_name)))
        (names (members (at delayed_name))) (items (at active_name))
        (names (members (at completed_name))) (names (members (at failed_name)))

  drain_run :
      (s : R.Store)
      → Consistent R q.key_builder none s
      → LeadsTo L H q s (sweep_all (add_ids [] (all_of s))) (drain R q)
  unfolding drain sweep_all all_of drain_commands
  drain_run s h = after_list L H q _ wait_name tt s h _ _ refl (
      after_set L H q _ prioritized_name tt s h _ _ refl (
        after_set L H q _ delayed_name tt s h _ _ refl (
          after_list L H q _ active_name tt s h _ _ refl (
            after_set L H q _ completed_name tt s h _ _ refl (
              after_set L H q _ failed_name tt s h _ _ refl
                λ t k. (t, k, ap (λ gone. sweep_all gone t) (merged s)))))))

  -- The deletion of the queue's own keys leaves those of the jobs alone.
  drain_commands-value :
      (gone : List Bytes) (id : Bytes) (m : KeyName) (t : R.Store)
      → IsJobId id
      → IsOf id m
      → all_ids gone ≡ true
      → R.value (pipeline R (drain_commands gone) t).1 (key_of q.key_builder m)
        ≡ (if in_list id gone then absent else R.value t (key_of q.key_builder m))
  unfolding pipeline drain_commands
  drain_commands-value gone id m t i o h =
      let kb = q.key_builder in
      del_jobs-value L H kb id m gone _ i o h
      ∙ ap (λ v. if in_list id gone then absent else v)
          (IsOf-other L H kb o i events_name _ tt refl
            ∙ IsOf-other L H kb o i failed_name _ tt refl
            ∙ IsOf-other L H kb o i completed_name _ tt refl
            ∙ IsOf-other L H kb o i active_name _ tt refl
            ∙ IsOf-other L H kb o i delayed_name _ tt refl
            ∙ IsOf-other L H kb o i prioritized_name _ tt refl
            ∙ IsOf-other L H kb o i wait_name _ tt refl)

  sweep_all_run :
      (gone : List Bytes) (id : Bytes) (m : KeyName) (t : R.Store)
      → IsJobId id
      → IsOf id m
      → all_ids gone ≡ true
      → Consistent R q.key_builder none t
      → let (r, s') = sweep_all gone t in
        (r ≡ ok (length gone))
        × (view R q.key_builder s' ≡ emptied (view R q.key_builder t))
        × (R.value s' (key_of q.key_builder m)
            ≡ (if in_list id gone then absent else R.value t (key_of q.key_builder m)))
  unfolding sweep_all explain pure
  sweep_all_run gone id m t known o i c =
      let does = Does-drain_commands gone i in
      let (u, done) = does.succeeds t c in
      rw
        (bind_of_ok (explain (codes "failed to drain queue") (pipeline R (drain_commands gone)))
          (λ _. pure (length gone)) t u (ap (explained (codes "failed to drain queue")) done))
        (refl, does.moves t c, drain_commands-value gone id m t known o i)

  in_list-all_of :
      (id : Bytes) (s : R.Store) → in_list id (all_of s) ≡ is_on id (view R q.key_builder s)
  unfolding all_of
  in_list-all_of id s = simp (in_list-append, in_list-names, in_list-reverse)

  all_ids-all_of : (s : R.Store) → Consistent R q.key_builder none s → all_ids (all_of s) ≡ true
  unfolding all_of
  all_ids-all_of s h =
      let in_items = λ (n : KeyName) (v : IsValid n) (e : shape none n ≡ ids).
        all_ids-items (R.value s (key_of q.key_builder n))
          (ap (λ sh. fits sh (R.value s (key_of q.key_builder n))) (sym e) ∙ h.at n v) in
      let in_members = λ (n : KeyName) (v : IsValid n) (e : shape none n ≡ scores none).
        all_ids-names (members (R.value s (key_of q.key_builder n))) (
          all_members-members none (R.value s (key_of q.key_builder n))
            (ap (λ sh. fits sh (R.value s (key_of q.key_builder n))) (sym e) ∙ h.at n v)) in
      all_ids-append _ _ (in_items wait_name tt refl) (
        all_ids-append _ _ (in_members prioritized_name tt refl) (
          all_ids-append _ _ (in_members delayed_name tt refl) (
            all_ids-append _ _ (in_items active_name tt refl) (
              all_ids-append _ _ (in_members completed_name tt refl)
                (in_members failed_name tt refl)))))

  -- On a server that is up and where the queue's data is consistent, Drain succeeds and returns the
  -- number of different jobs that were on the board; the board is empty afterwards, paused or not
  -- as before; and of the hash, the lock and the log of a job nothing is left where the job was on
  -- the board, and they are as they were where it was not.
  pub drain-emptied :
      (s : R.Store) (id : Bytes) (m : KeyName)
      → IsJobId id
      → IsOf id m
      → Consistent R q.key_builder none s
      → let (r, s') = drain R q s in
        let b = view R q.key_builder s in
        (gone : List Bytes) × (r ≡ ok (length gone))
        × (no_repeats gone ≡ true)
        × ((j : Bytes) → in_list j gone ≡ is_on j b)
        × (view R q.key_builder s' ≡ emptied b)
        × (R.value s' (key_of q.key_builder m)
            ≡ (if is_on id b then absent else R.value s (key_of q.key_builder m)))
  unfolding all_ids no_repeats in_list
  drain-emptied s id m i o h =
      let (t, k, e) = drain_run s h s (λ j. refl) in
      let c : Consistent R q.key_builder none t = record {
        at = λ n v. ap (fits (shape none n)) (k _) ∙ h.at n v;
      } in
      let gone = add_ids [] (all_of s) in
      let known = all_ids-add_ids [] (all_of s) refl (all_ids-all_of s h) in
      let there = λ (j : Bytes). in_list-add_ids j [] (all_of s) ∙ in_list-all_of j s in
      let (done, moved, left) = sweep_all_run gone id m t i o known c in
      rw e (
        gone,
        done,
        no_repeats-add_ids [] (all_of s) refl,
        there,
        moved ∙ ap emptied (view-same R q.key_builder s t k),
        left
            ∙ ap (λ c. if c then absent else R.value t (key_of q.key_builder m)) (there id)
            ∙ ap (λ v. if is_on id (view R q.key_builder s) then absent else v) (k _),
      )
