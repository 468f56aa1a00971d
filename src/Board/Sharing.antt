-- ===== src/Board/Sharing.antt =====
-- Two workers that pick up jobs of one queue, one after the other: the lock that each gets.
mod Locks
use bullmq_go.Prelude.{
  Bytes, bytes_eq, bytes_eq_sym, ◌≡◌, sym, subst, ap, ◌∙◌, true, false, List, ◌∷◌, none, arith,
}
use bullmq_go.Prelude.Int.{ℤ, pos, ◌≤ℤ◌}
use bullmq_go.Redis.{Server, Laws, IsHealthy}
use bullmq_go.Redis.Values.{text}
use bullmq_go.Keys
use bullmq_go.Worker.{Worker, keys_of}
use bullmq_go.Worker.Run.{pickup_job}
use bullmq_go.Invariant.Keeps.{Consistent}
use bullmq_go.Board.{took, view, no_repeats, in_list}
use bullmq_go.Board.Popping.{picked}
use bullmq_go.Board.Serving.{line, IsOpen}
use bullmq_go.Board.Sharing.Locks.{pickup_job-takes}

module _ {R : Server} (L : Laws R) (H : IsHealthy R) where
  -- On a server that is up and where the queue's data is consistent, for two connected workers of
  -- one queue with lock durations above 0, and a queue that is not paused, with no empty id
  -- prioritized: when no job stands twice in the line of those prioritized and waiting, two pickups
  -- one after the other take the first two of the line, which are different jobs; and after both
  -- each job's lock holds the token of the worker that took it.
  pub pickup_job-pickup_job :
      (w w' : Worker) (token token' : Bytes) (s : R.Store) (id id' : Bytes) (rest : List Bytes)
      → pos 1 ≤ℤ w.opts.lock_duration
      → pos 1 ≤ℤ w'.opts.lock_duration
      → w.is_connected ≡ true
      → w'.is_connected ≡ true
      → keys_of w' ≡ keys_of w
      → Consistent R (keys_of w) none s
      → IsOpen (view R (keys_of w) s)
      → line (view R (keys_of w) s) ≡ id ∷ id' ∷ rest
      → no_repeats (id ∷ id' ∷ rest) ≡ true
      → let (r, s1) = pickup_job R w token s in
        let (r', s2) = pickup_job R w' token' s1 in
        (picked r ≡ took id)
        × (picked r' ≡ took id')
        × (bytes_eq id id' ≡ false)
        × (line (view R (keys_of w) s2) ≡ rest)
        × (R.value s2 (Keys.lock (keys_of w) id) ≡ text token)
        × (R.value s2 (Keys.lock (keys_of w) id') ≡ text token')
  unfolding no_repeats in_list
  pickup_job-pickup_job w w' token token' s id id' rest d d' c c' same inv open_now e distinct =
      let (got, left, still, inv1, first) =
        pickup_job-takes L H w d c s token inv open_now id (id' ∷ rest) e in
      let s1 = (pickup_job R w token s).1 in
      let (got', left', still', inv2, second) =
        pickup_job-takes L H w' d' c' s1 token'
          (subst (λ kb. Consistent R kb none s1) (sym same) inv1)
          (subst (λ kb. IsOpen (view R kb s1)) (sym same) still) id' rest
          (ap (λ kb. line (view R kb s1)) same ∙ left) in
      let s2 = (pickup_job R w' token' s1).1 in
      let differ : bytes_eq id id' ≡ false = ground (arith, bytes_eq_sym id id', distinct) in
      (
        got,
        got',
        differ,
        ap (λ kb. line (view R kb s2)) (sym same) ∙ left',
        ap (λ kb. R.value s2 (Keys.lock kb id)) (sym same)
            ∙ second.others id first.is_id differ
            ∙ ap (λ kb. R.value s1 (Keys.lock kb id)) same
            ∙ first.own,
        ap (λ kb. R.value s2 (Keys.lock kb id')) (sym same) ∙ second.own,
      )
