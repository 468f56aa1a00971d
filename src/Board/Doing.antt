-- ===== src/Board/Doing.antt =====
-- What an action does to the board on a server that is up and where the queue's data is
-- consistent: one rule for each way to build an action, and for the commands that end a job.
use bullmq_go.Prelude.{Bytes, ◌≡◌, refl, ap, ◌∙◌, Bool, true, false, ltb, none, if◌then◌else◌}
use bullmq_go.Prelude.Int.{ℤ}
use bullmq_go.Redis.{Server, Laws, IsHealthy}
use bullmq_go.Redis.Values.{
  Command, Result, ok, key, lrem, zadd, xadd, items, members, z_place, z_remove, remove_count,
}
use bullmq_go.Redis.Action.{Action, pure, ignore, explain, explained, ◌>>=◌, ◌>>◌, bind_of_ok}
use bullmq_go.Redis.Facts.{lrem_self, zadd_self, lrem_ok}
use bullmq_go.Keys
use bullmq_go.Keys.{KeyBuilder}
use bullmq_go.Keys.Distinct.{
  KeyName, key_of, IsValid, IsJobId, tag, active_name, delayed_name, completed_name, failed_name,
  events_name,
}
use bullmq_go.Jobs.{Codec}
use bullmq_go.Events.{EventEmitter, Event, emit, event_values}
use bullmq_go.Invariant.Fits.{shape, allowed, IsJobId-is_job_id}
use bullmq_go.Invariant.Keeps.{
  Keeps, Consistent, Keeps-exec, Keeps-pure, Keeps-ignore, Keeps-explain, Keeps-bind,
}
use bullmq_go.Invariant.Rules.{
  IsOwnEmitter, Keeps-active, Keeps-delayed, Keeps-completed, Keeps-failed, Keeps-emit,
}
use bullmq_go.Board.{Board, view, leave}
use bullmq_go.Board.Views.{view-exec, view-aside, as_list-fits, as_zset-fits, items-of_items}

-- The action succeeds, changes the board so, and keeps the queue's data consistent.
pub record Does (R : Server) (kb : KeyBuilder) {A : Type 0} (f : Board → Board)
    (m : Action R.Store A) : Type 0 where
  pub moves : (s : R.Store) → Consistent R kb none s → view R kb (m s).1 ≡ f (view R kb s)
  pub succeeds : (s : R.Store) → Consistent R kb none s → (a : A) × ((m s).0 ≡ ok a)
  pub stays : Keeps (Consistent R kb none) m

abbrev pub same : Board → Board
same b = b

module _ {R : Server} {kb : KeyBuilder} {A : Type 0} where
  pub Does-pure : (a : A) → Does R kb {A = A} same (pure a)
  unfolding pure
  Does-pure a = record { moves = λ s h. refl; succeeds = λ s h. (a, refl); stays = Keeps-pure a }

  pub Does-if :
      (c : Bool) (f g : Board → Board) (m n : Action R.Store A)
      → Does R kb f m
      → Does R kb g n
      → Does R kb (λ b. if c then f b else g b) (if c then m else n)
  Does-if true f g m n dm dn = dm
  Does-if false f g m n dm dn = dn

  pub Does-ignore :
      (f : Board → Board) (m : Action R.Store A)
      → ((s : R.Store) → Consistent R kb none s → view R kb (m s).1 ≡ f (view R kb s))
      → Keeps (Consistent R kb none) m
      → Does R kb f (ignore m)
  unfolding ignore
  Does-ignore f m h k = record {
    moves = h;
    succeeds = λ s inv. (tt, refl);
    stays = Keeps-ignore m k;
  }

module _ {R : Server} {kb : KeyBuilder} {A B : Type 0} where
  pub Does-bind :
      (f g : Board → Board) (m : Action R.Store A) (k : A → Action R.Store B)
      → Does R kb f m
      → ((a : A) → Does R kb g (k a))
      → Does R kb (λ b. g (f b)) (m >>= k)
  Does-bind f g m k dm dk = record {
    moves = λ s h.
        let (a, e) = dm.succeeds s h in
        ap (λ (p : Result B × R.Store). view R kb p.1) (bind_of_ok m k s a e)
        ∙ (dk a).moves (m s).1 (dm.stays.keeps s h)
        ∙ ap g (dm.moves s h);
    succeeds = λ s h.
        let (a, e) = dm.succeeds s h in
        let (b, done) = (dk a).succeeds (m s).1 (dm.stays.keeps s h) in
        (b, ap (λ (p : Result B × R.Store). p.0) (bind_of_ok m k s a e) ∙ done);
    stays = Keeps-bind m k dm.stays (λ a. (dk a).stays);
  }

module _ {R : Server} {kb : KeyBuilder} {A B : Type 0} {f g : Board → Board} {m : Action R.Store A}
    {n : Action R.Store B} where
  pub Does-then : Does R kb f m → Does R kb g n → Does R kb (λ b. g (f b)) (m >> n)
  Does-then dm dn = Does-bind f g m (λ a. n) dm (λ a. dn)

module _ {R : Server} {kb : KeyBuilder} {A : Type 0} {f g : Board → Board}
    {m : Action R.Store A} where
  -- The same change, told in other words.
  pub Does-as : Does R kb f m → ((b : Board) → f b ≡ g b) → Does R kb g m
  Does-as dm e = record {
    moves = λ s h. dm.moves s h ∙ e (view R kb s);
    succeeds = dm.succeeds;
    stays = dm.stays;
  }

module _ {R : Server} (L : Laws R) (kb : KeyBuilder) where
  -- A command on a job's own key.
  pub Does-aside :
      (n : KeyName) (c : Command)
      → IsValid n
      → ltb (tag n) 8 ≡ false
      → key c ≡ key_of kb n
      → allowed (shape none n) c ≡ true
      → Does R kb same (ignore (R.exec c))
  Does-aside n c v p e a =
      Does-ignore same _ (λ s h. view-aside L kb c s n v p e) (Keeps-exec L kb none n c v e a)

  pub Does-emit :
      (C : Codec) (ee : EventEmitter) (event : Event)
      → IsOwnEmitter kb ee
      → Does R kb same (ignore (emit R C ee event))
  unfolding emit
  Does-emit C ee event o =
      Does-ignore same _
        (λ s h.
          view-exec L kb (xadd _ ee.max_len (event_values R C event)) s events_name tt refl
            o.same_events)
        (Keeps-emit L C kb none ee event o)

  module _ (H : IsHealthy R) (id : Bytes) (i : IsJobId id) where
    view-leave :
        (s : R.Store)
        → Consistent R kb none s
        → view R kb (R.exec (lrem (Keys.active kb) 1 id) s).1 ≡ leave id (view R kb s)
    view-leave s h =
        view-exec L kb (lrem (Keys.active kb) 1 id) s active_name tt refl refl
        ∙ ap (λ v. record (view R kb s) { active = items v })
            (lrem_self L H (Keys.active kb) 1 id s _ (as_list-fits _ (h.at active_name tt)))
        ∙ ap (λ xs. record (view R kb s) { active = xs })
            (items-of_items (remove_count 1 id (items (R.value s (Keys.active kb)))))

    Keeps-leave : Keeps (Consistent R kb none) (R.exec (lrem (Keys.active kb) 1 id))
    Keeps-leave = Keeps-active L kb none (lrem (Keys.active kb) 1 id) refl refl

    pub Does-leave : Does R kb (leave id) (ignore (R.exec (lrem (Keys.active kb) 1 id)))
    Does-leave = Does-ignore (leave id) _ view-leave Keeps-leave

    pub Does-leave_explained :
        (text : Bytes) → Does R kb (leave id) (explain text (R.exec (lrem (Keys.active kb) 1 id)))
    unfolding explain
    Does-leave_explained text = record {
      moves = view-leave;
      succeeds = λ s h.
          let (n, e) = lrem_ok H (Keys.active kb) 1 id s _ (as_list-fits _ (h.at active_name tt)) in
          (n, ap (explained text) e);
      stays = Keeps-explain text _ Keeps-leave;
    }

    pub Does-complete_at :
        (at : ℤ)
        → Does R kb
            (λ b. record b { completed = z_place (id, at) (z_remove id b.completed) })
            (ignore (R.exec (zadd (Keys.completed kb) at id)))
    Does-complete_at at =
        Does-ignore _ _
          (λ s h.
            view-exec L kb (zadd (Keys.completed kb) at id) s completed_name tt refl refl
            ∙ ap (λ v. record (view R kb s) { completed = members v })
                (zadd_self L H (Keys.completed kb) at id s _
                  (as_zset-fits none _ (h.at completed_name tt))))
          (Keeps-completed L kb none (zadd (Keys.completed kb) at id) refl (IsJobId-is_job_id id i))

    pub Does-fail_at :
        (at : ℤ)
        → Does R kb
            (λ b. record b { failed = z_place (id, at) (z_remove id b.failed) })
            (ignore (R.exec (zadd (Keys.failed kb) at id)))
    Does-fail_at at =
        Does-ignore _ _
          (λ s h.
            view-exec L kb (zadd (Keys.failed kb) at id) s failed_name tt refl refl
            ∙ ap (λ v. record (view R kb s) { failed = members v })
                (zadd_self L H (Keys.failed kb) at id s _
                  (as_zset-fits none _ (h.at failed_name tt))))
          (Keeps-failed L kb none (zadd (Keys.failed kb) at id) refl (IsJobId-is_job_id id i))

    pub Does-delay_to :
        (due : ℤ)
        → Does R kb
            (λ b. record b { delayed = z_place (id, due) (z_remove id b.delayed) })
            (ignore (R.exec (zadd (Keys.delayed kb) due id)))
    Does-delay_to due =
        Does-ignore _ _
          (λ s h.
            view-exec L kb (zadd (Keys.delayed kb) due id) s delayed_name tt refl refl
            ∙ ap (λ v. record (view R kb s) { delayed = members v })
                (zadd_self L H (Keys.delayed kb) due id s _
                  (as_zset-fits none _ (h.at delayed_name tt))))
          (Keeps-delayed L kb none (zadd (Keys.delayed kb) due id) refl (IsJobId-is_job_id id i))
