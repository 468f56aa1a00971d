-- ===== src/Examples/Loading.antt =====
-- A loader that has a script of its own under one of the eight names.
use bullmq_go.Prelude.{ℕ, suc, Bytes, bytes_eq, codes, List, [], ◌∷◌, ◌++◌, ◌≡◌, refl}
use bullmq_go.Keys.{single}
use bullmq_go.Scripts.{
  ScriptClient, ScriptTexts, ScriptLoader, new_script_loader, load, get_script, run, load_all,
}
use bullmq_go.Scripts.Cached.{script_after, script_table, text_of, run-load_all}

-- A client whose reply repeats what it was asked to run, and whose server counts the runs.
abbrev echoing : ScriptClient
echoing = record {
  Store = ℕ;
  Script = Bytes;
  Cmd = List Bytes;
  new_script = λ text. text;
  new_cmd = λ words. words;
  run_script = λ script client keys args s. (script ∷ keys ++ args, suc s);
}

abbrev texts : ScriptTexts
texts = record {
  move_to_active = codes "return 1";
  move_to_completed = codes "return 2";
  move_to_failed = codes "return 3";
  retry_job = codes "return 4";
  move_stalled_jobs_to_wait = codes "return 5";
  extend_lock = codes "return 6";
  update_progress = codes "return 7";
  add_log = codes "return 8";
}

abbrev retry_replaced : ScriptLoader Bytes
retry_replaced =
    (load echoing (codes "retryJob") (codes "return 0") (new_script_loader echoing single)).1

run-load_all_example :
    run echoing
      (codes "addLog")
      (codes "bull:posts:1:logs" ∷ [])
      (codes "entry" ∷ [])
      (load_all echoing texts retry_replaced)
      6
    ≡ (codes "return 8" ∷ codes "bull:posts:1:logs" ∷ codes "entry" ∷ [], 7)
unfolding load new_script_loader script_after get_script bytes_eq text_of script_table
run-load_all_example =
    run-load_all echoing texts retry_replaced (codes "addLog") (codes "bull:posts:1:logs" ∷ [])
      (codes "entry" ∷ []) 6

own_script_runs :
    run echoing (codes "retryJob") [] [] (load_all echoing texts retry_replaced) 0
    ≡ (codes "return 0" ∷ [], 1)
unfolding run load load_all new_script_loader bytes_eq
own_script_runs = refl

unknown_name_sends_nothing :
    run echoing (codes "moveToDelayed") [] [] (load_all echoing texts retry_replaced) 0
    ≡ (codes "ERR" ∷ codes "script not found: moveToDelayed" ∷ [], 0)
unfolding run load load_all new_script_loader bytes_eq
unknown_name_sends_nothing = refl
