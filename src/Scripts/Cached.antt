-- ===== src/Scripts/Cached.antt =====
-- Which scripts a loader has after LoadAll, and what a run by name runs then.
use bullmq_go.Prelude.{
  Bytes, codes, bytes_eq, eq_of_bytes_eq, ◌++◌, List, [], ◌∷◌, Option, none, some, if◌then◌else◌,
  ◌≡◌, refl, ap, ◌∙◌, arith, Option-cases, inl, inr,
}
use bullmq_go.Scripts.{ScriptClient, ScriptTexts, ScriptLoader, load, get_script, run, load_all}

-- The names of the scripts with their texts.
unfoldable pub script_table : ScriptTexts → List (Bytes × Bytes)
script_table t =
    (codes "moveToActive", t.move_to_active)
    ∷ (codes "moveToCompleted", t.move_to_completed)
    ∷ (codes "moveToFailed", t.move_to_failed)
    ∷ (codes "retryJob", t.retry_job)
    ∷ (codes "moveStalledJobsToWait", t.move_stalled_jobs_to_wait)
    ∷ (codes "extendLock", t.extend_lock)
    ∷ (codes "updateProgress", t.update_progress)
    ∷ (codes "addLog", t.add_log)
    ∷ []

unfoldable pub text_of : Bytes → List (Bytes × Bytes) → Option Bytes
text_of name [] = none
text_of name ((n, text) ∷ rest) =
    let later = text_of name rest in if bytes_eq name n then some text else later

module _ (G : ScriptClient) where
  open G use {Store, Script, Cmd, new_script, new_cmd, run_script}

  -- The script under a name: the one that was there already, else the one of the text.
  unfoldable pub script_after : Option Script → Option Bytes → Option Script
  script_after (some script) text = some script
  script_after none (some text) = some (new_script text)
  script_after none none = none

  load_each : List (Bytes × Bytes) → ScriptLoader Script → ScriptLoader Script
  load_each [] sl = sl
  load_each ((name, text) ∷ rest) sl = load_each rest (load G name text sl).1

  load_all-load_each :
      (t : ScriptTexts) (sl : ScriptLoader Script) → load_all G t sl ≡ load_each (script_table t) sl
  unfolding load_all script_table load_each
  load_all-load_each t sl = refl

  get_script-load :
      (name text : Bytes) (sl : ScriptLoader Script) (n : Bytes) (later : Option Bytes)
      → script_after (get_script G n (load G name text sl).1) later
        ≡ script_after (get_script G n sl) (if bytes_eq n name then some text else later)
  unfolding load get_script script_after
  get_script-load name text sl n later = elim (Option-cases (sl.script_cache name)) [
    | inl e ↦ elim (Option-cases (sl.script_cache n)) [
      | inl d ↦ ground (arith, e, d)
      | inr (old, d) ↦ ground (arith, e, d, eq_of_bytes_eq n name)
    ]
    | inr (old, e) ↦ ground (arith, e, eq_of_bytes_eq n name)
  ]

  get_script-load_each :
      (table : List (Bytes × Bytes)) (sl : ScriptLoader Script) (n : Bytes)
      → get_script G n (load_each table sl) ≡ script_after (get_script G n sl) (text_of n table)
  unfolding load_each text_of script_after get_script
  get_script-load_each [] sl n = elim (Option-cases (sl.script_cache n)) [
    | inl e ↦ ground (arith, e)
    | inr (old, e) ↦ ground (arith, e)
  ]
  get_script-load_each ((name, text) ∷ rest) sl n =
      get_script-load_each rest (load G name text sl).1 n
      ∙ get_script-load name text sl n (text_of n rest)

  load-client :
      (name text : Bytes) (sl : ScriptLoader Script) → (load G name text sl).1.client ≡ sl.client
  unfolding load
  load-client name text sl = elim (Option-cases (sl.script_cache name)) [
    | inl e ↦ ground (arith, e)
    | inr (old, e) ↦ ground (arith, e)
  ]

  load_each-client :
      (table : List (Bytes × Bytes)) (sl : ScriptLoader Script)
      → (load_each table sl).client ≡ sl.client
  unfolding load_each
  load_each-client [] sl = refl
  load_each-client ((name, text) ∷ rest) sl =
      load_each-client rest (load G name text sl).1 ∙ load-client name text sl

  -- After LoadAll on any loader, a run by name sends the script that was loaded under the name
  -- before, else one made from the text that the name has among the eight scripts, with the
  -- loader's client and the run's keys and arguments; under any other name nothing is sent, and
  -- the reply is the command that says so.
  pub run-load_all :
      (t : ScriptTexts) (sl : ScriptLoader Script) (name : Bytes) (keys args : List Bytes)
      (s : Store)
      → run G name keys args (load_all G t sl) s
        ≡ elim (script_after (get_script G name sl) (text_of name (script_table t))) [
          | none ↦ (new_cmd (codes "ERR" ∷ (codes "script not found: " ++ name) ∷ []), s)
          | some script ↦ run_script script sl.client keys args s
        ]
  unfolding run
  run-load_all t sl name keys args s =
      let after = load_all-load_each t sl in
      let found = ap (get_script G name) after ∙ get_script-load_each (script_table t) sl name in
      let same = ap (λ l. l.client) after ∙ load_each-client (script_table t) sl in
      rw (run, found)
        (ap
          (λ c. elim (script_after (get_script G name sl) (text_of name (script_table t))) [
            | none ↦ (new_cmd (codes "ERR" ∷ (codes "script not found: " ++ name) ∷ []), s)
            | some script ↦ run_script script c keys args s
          ])
          same)
