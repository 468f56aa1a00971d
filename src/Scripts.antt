-- ===== src/Scripts.antt =====
-- pkg/bullmq/scripts/loader.go: the cache of the Lua scripts that the queue, the log manager and the
-- progress updater build, and the run of a script by its name. The texts of scripts.go are arguments.
pub mod Cached
use bullmq_go.Prelude.{
  Bytes, codes, bytes_eq, ◌++◌, List, [], ◌∷◌, Option, none, some, if◌then◌else◌,
}
use bullmq_go.Prelude.Hex.{encode_to_string}
use bullmq_go.Keys.{RedisClient}

-- What go-redis gives: a script made from its text, its run on the server, and a command that is
-- made from its words and was not sent.
pub record ScriptClient : Type 1 where
  pub Store : Type 0
  pub Script : Type 0
  pub Cmd : Type 0
  pub new_script : Bytes → Script
  pub new_cmd : List Bytes → Cmd
  pub run_script : Script → RedisClient → List Bytes → List Bytes → Store → Cmd × Store

-- The constants of scripts.go that LoadAll reads.
pub record ScriptTexts : Type 0 where
  pub move_to_active : Bytes
  pub move_to_completed : Bytes
  pub move_to_failed : Bytes
  pub retry_job : Bytes
  pub move_stalled_jobs_to_wait : Bytes
  pub extend_lock : Bytes
  pub update_progress : Bytes
  pub add_log : Bytes

-- A loader: the client and, for each name, the script that the map has there.
pub record ScriptLoader (Script : Type 0) : Type 0 where
  pub client : RedisClient
  pub script_cache : Bytes → Option Script

-- The digest of a script; `sum` is crypto/sha1, from a text to its 20 bytes.
unfoldable pub get_sha1 : (Bytes → Bytes) → Bytes → Bytes
get_sha1 sum script_source = encode_to_string (sum script_source)

module _ (G : ScriptClient) where
  open G use {Store, Script, Cmd, new_script, new_cmd, run_script}

  unfoldable pub new_script_loader : RedisClient → ScriptLoader Script
  new_script_loader client = record { client = client; script_cache = λ name. none }

  unfoldable pub load : Bytes → Bytes → ScriptLoader Script → Script × ScriptLoader Script
  load name script_source sl = elim (sl.script_cache name) [
    | some script ↦ (script, sl)
    | none ↦
        let script = new_script script_source in
        (
          script,
          record sl {
            script_cache = λ n. if bytes_eq n name then some script else sl.script_cache n;
          },
        )
  ]

  unfoldable pub get_script : Bytes → ScriptLoader Script → Option Script
  get_script name sl = sl.script_cache name

  unfoldable pub run : Bytes → List Bytes → List Bytes → ScriptLoader Script → Store → Cmd × Store
  unfolding get_script
  run name keys args sl s = elim (get_script name sl) [
    | none ↦ (new_cmd (codes "ERR" ∷ (codes "script not found: " ++ name) ∷ []), s)
    | some script ↦ run_script script sl.client keys args s
  ]

  unfoldable pub load_all : ScriptTexts → ScriptLoader Script → ScriptLoader Script
  load_all t sl =
      let sl1 = (load (codes "moveToActive") t.move_to_active sl).1 in
      let sl2 = (load (codes "moveToCompleted") t.move_to_completed sl1).1 in
      let sl3 = (load (codes "moveToFailed") t.move_to_failed sl2).1 in
      let sl4 = (load (codes "retryJob") t.retry_job sl3).1 in
      let sl5 = (load (codes "moveStalledJobsToWait") t.move_stalled_jobs_to_wait sl4).1 in
      let sl6 = (load (codes "extendLock") t.extend_lock sl5).1 in
      let sl7 = (load (codes "updateProgress") t.update_progress sl6).1 in
      (load (codes "addLog") t.add_log sl7).1
