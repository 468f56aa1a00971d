-- ===== src/Redis/Pipeline.antt =====
-- A go-redis pipeline: the queued commands are sent in their order, each runs whatever the others
-- answered, and Exec returns the first error.
use bullmq_go.Prelude.{List, [], ◌∷◌}
use bullmq_go.Redis.{Server}
use bullmq_go.Redis.Values.{Command, Result, ok, err}
use bullmq_go.Redis.Action.{Action}

abbrev pub first_error : {A B : Type 0} → Result A → Result B → Result B
first_error (ok a) r = r
first_error (err e) r = err e

module _ (R : Server) where
  open R use {Store, exec}

  unfoldable pub pipeline : List Command → Action Store Unit
  pipeline [] s = (ok tt, s)
  pipeline (c ∷ cs) s =
      let (r, s1) = exec c s in let (r', s2) = pipeline cs s1 in (first_error r r', s2)
