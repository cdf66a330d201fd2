-- ===== src/Services/Redis/Laws.antt =====
-- What the queue and the leases promise the workers, on a server that keeps to its documentation.
use text2image.Base.{
  ℕ, ℤ, ◌≡◌, ◌≢◌, refl, ◌∙◌, ap, sym, Bool, true, false, Option, none, some, List, [], ◌∷◌, ◌++◌,
  All, map, length, Text, eqb, eqb_iff, eqb_refl, Bool-cases, inl, inr, Result, ok, Action, ◌>>=◌,
  pure,
}
use mathlib.Core.List.{append_assoc, append-nil}
use text2image.Services.Effects.{Exception}
use text2image.Services.CacheKeys.{decimal}
use text2image.Services.Redis.{Commands, RedisConnection, RedisConfig, run_command}
use text2image.Services.Redis.Numbers.{IsInt64, stoll-decimal}
use text2image.Services.Redis.Queue.{push_all, rebuild_task_queue, dequeue_task}
use text2image.Services.Redis.Lease.{
  lease_key, is_owner, renew_script, release_script, acquire_lease, renew_lease, release_lease,
}

-- The value at the tail, and the list without it.
abbrev pub pop_last : List Text → Option Text × List Text
pop_last [] = (none, [])
pop_last (v ∷ []) = (some v, [])
pop_last (v ∷ w ∷ vs) = let rest = pop_last (w ∷ vs) in (rest.0, v ∷ rest.1)

-- What Redis documents of its commands, for a view of the state: the list and the string at a key.
pub record IsServer {S : Type 0} (r : Commands S) : Type 0 where
  pub list_at : Text → S → List Text
  pub lpush_at : (k v : Text) (s : S) → list_at k (r.lpush k v s) ≡ v ∷ list_at k s
  pub brpop_value : (k : Text) (s : S) → (r.brpop k s).0 ≡ (pop_last (list_at k s)).0
  pub brpop_rest : (k : Text) (s : S) → list_at k (r.brpop k s).1 ≡ (pop_last (list_at k s)).1
  pub del_list : (k : Text) (s : S) → list_at k (r.del k s).1 ≡ []
  pub del_value : (k : Text) (s : S) → r.get_value k (r.del k s).1 ≡ none
  pub del_found : (k v : Text) (s : S) → r.get_value k s ≡ some v → (r.del k s).0 ≡ true
  pub set_nx_free :
      (k v : Text) (t : ℤ) (s : S)
      → r.get_value k s ≡ none
      → ((r.set_nx_ex k v t s).0 ≡ true) × (r.get_value k (r.set_nx_ex k v t s).1 ≡ some v)
  pub set_nx_taken :
      (k v w : Text) (t : ℤ) (s : S) → r.get_value k s ≡ some w → r.set_nx_ex k v t s ≡ (false, s)

-- A client of a server that nobody else uses for a while, and whose commands do not fail.
abbrev pub connected : {S : Type 0} → RedisConfig → S → RedisConnection S
connected config s = record {
  server_state = s;
  available = true;
  config = config;
  redis_events = [];
}

-- Dequeues so often, and collects the ids.
unfoldable pub drain : {S : Type 0} → Commands S → ℕ → Action (RedisConnection S) Exception (List ℤ)
drain r ℕ.zero = pure []
drain r (ℕ.suc n) = do
  id ← dequeue_task r
  rest ← drain r n
  pure (elim id [ none ↦ rest | some i ↦ i ∷ rest ])

module _ {S : Type 0} (r : Commands S) (server : IsServer r) (config : RedisConfig) where
  not_owner : (v w : Text) → v ≢ w → is_owner (some w) v ≡ false
  not_owner v w other = elim (Bool-cases (eqb w v)) [
    | inl e ↦ absurd (other (sym ((eqb_iff w v).0 e)))
    | inr e ↦ e
  ]

  renew_script-other :
      (k v w : Text) (t : ℤ) (u : S)
      → v ≢ w
      → r.get_value k u ≡ some w
      → renew_script r k v t u ≡ (false, u)
  renew_script-other k v w t u other e = rw (e, not_owner v w other) refl

  release_script-other :
      (k v w : Text) (u : S)
      → v ≢ w
      → r.get_value k u ≡ some w
      → release_script r k v u ≡ (false, u)
  release_script-other k v w u other e = rw (e, not_owner v w other) refl

  renew_script-owner :
      (k w : Text) (t : ℤ) (u : S) → r.get_value k u ≡ some w → (renew_script r k w t u).0 ≡ true
  renew_script-owner k w t u e = rw (e, eqb_refl w) refl

  release_script-owner :
      (k w : Text) (u : S)
      → r.get_value k u ≡ some w
      → ((release_script r k w u).0 ≡ true) × (r.get_value k (release_script r k w u).1 ≡ none)
  release_script-owner k w u e = rw (e, eqb_refl w) (server.del_found k w u e, server.del_value k u)

  -- A claim that was granted holds: no other worker, and not the same worker either, is granted a
  -- claim of the task while the lease has not expired, another worker can neither renew nor release
  -- it, its owner renews it, and after its owner's release it is free again. `w` is the worker that
  -- was granted the lease, `v` is any other.
  pub acquire_lease-exclusive :
      (s : S) (task_id : ℤ) (w v : Text) (seconds more : ℤ)
      → v ≢ w
      → r.get_value (lease_key config task_id) s ≡ none
      → let granted = acquire_lease r task_id w seconds (connected config s) in
        let c = granted.1 in
        (granted.0 ≡ ok true)
        × ((u : Text) → acquire_lease r task_id u more c ≡ (ok false, c))
        × (renew_lease r task_id v more c ≡ (ok false, c))
        × (release_lease r task_id v c ≡ (ok false, c))
        × ((renew_lease r task_id w more c).0 ≡ ok true)
        × ((release_lease r task_id w c).0 ≡ ok true)
        × ((acquire_lease r task_id v more (release_lease r task_id w c).1).0 ≡ ok true)
  unfolding acquire_lease renew_lease release_lease run_command
  acquire_lease-exclusive s task_id w v seconds more other free =
      let k = lease_key config task_id in
      let granted = server.set_nx_free k w seconds s free in
      let u = (r.set_nx_ex k w seconds s).1 in
      let renewed = renew_script-other k v w more u other granted.1 in
      let released = release_script-other k v w u other granted.1 in
      let gone = release_script-owner k w u granted.1 in
      (
        ap ok granted.0,
        (λ x. ap answered (server.set_nx_taken k x w more u granted.1)),
        ap answered renewed,
        ap answered released,
        ap ok (renew_script-owner k w more u granted.1),
        ap ok gone.0,
        ap ok (server.set_nx_free k v more _ gone.1).0,
      )
    where
      answered : Bool × S → Result Exception Bool × RedisConnection S
      answered x = (
        ok x.0,
        record { server_state = x.1; available = true; config = config; redis_events = [] },
      )

  -- Dequeuing a queue of ids.
  pop_last-append : (vs : List Text) (v : Text) → pop_last (vs ++ v ∷ []) ≡ (some v, vs)
  pop_last-append [] v = refl
  pop_last-append (x ∷ []) v = refl
  pop_last-append (x ∷ y ∷ vs) v = rw (pop_last-append (y ∷ vs) v) refl

  -- The list of a queue that gives out these ids, the first at the tail.
  abbrev pub queued : List ℤ → List Text
  queued [] = []
  queued (i ∷ ids) = queued ids ++ decimal i ∷ []

  abbrev key : Text
  key = config.task_queue_key

  push_all-list :
      (ids : List ℤ) (s : S) (q : List Text)
      → server.list_at key s ≡ q
      → server.list_at key (push_all r key (map decimal ids) s) ≡ queued ids ++ q
  unfolding push_all
  push_all-list [] s q e = e
  push_all-list (i ∷ ids) s q e =
      push_all-list ids (r.lpush key (decimal i) s) (decimal i ∷ q)
        (server.lpush_at key (decimal i) s ∙ ap (λ t. decimal i ∷ t) e)
      ∙ sym (append_assoc (queued ids) (decimal i ∷ []) q)

  pub dequeue_task-some :
      (i : ℤ) (vs : List Text) (s : S)
      → IsInt64 i
      → server.list_at key s ≡ vs ++ decimal i ∷ []
      → (dequeue_task r (connected config s) ≡ (ok (some i), connected config (r.brpop key s).1))
        × (server.list_at key (r.brpop key s).1 ≡ vs)
  unfolding dequeue_task run_command
  dequeue_task-some i vs s bound e =
      let popped =
        server.brpop_value key s
        ∙ ap (λ q. (pop_last q).0) e
        ∙ ap (λ q. q.0) (pop_last-append vs (decimal i)) in
      let left =
        server.brpop_rest key s
        ∙ ap (λ q. (pop_last q).1) e
        ∙ ap (λ q. q.1) (pop_last-append vs (decimal i)) in
      (rw (popped, stoll-decimal i bound) refl, left)

  dequeue_task-none :
      (s : S) → server.list_at key s ≡ [] → (dequeue_task r (connected config s)).0 ≡ ok none
  unfolding dequeue_task run_command
  dequeue_task-none s e = rw (server.brpop_value key s ∙ ap (λ q. (pop_last q).0) e) refl

  drain-queued :
      (ids : List ℤ) (s : S)
      → All IsInt64 ids
      → server.list_at key s ≡ queued ids
      → (t : S) × (drain r (length ids) (connected config s) ≡ (ok ids, connected config t))
        × (server.list_at key t ≡ [])
  unfolding drain
  drain-queued [] s a e = (s, refl, e)
  drain-queued (i ∷ ids) s a e =
      let first = dequeue_task-some i (queued ids) s a.0 e in
      let rest = drain-queued ids (r.brpop key s).1 a.1 first.1 in
      (rest.0, rw (first.0, rest.1) refl, rest.2)

  -- After the queue has been rebuilt from a list of ids, whatever it held before, the workers dequeue
  -- exactly these ids, in the order of the list, and then nothing.
  pub rebuild_task_queue-drain :
      (ids : List ℤ) (s : S)
      → All IsInt64 ids
      → let rebuilt = rebuild_task_queue r ids (connected config s) in
        let drained = drain r (length ids) rebuilt.1 in
        (rebuilt.0 ≡ ok tt) × (drained.0 ≡ ok ids) × ((dequeue_task r drained.1).0 ≡ ok none)
  unfolding rebuild_task_queue run_command
  rebuild_task_queue-drain ids s a =
      let filled = push_all-list ids (r.del key s).1 [] (server.del_list key s) in
      let all = drain-queued ids _ a (filled ∙ append-nil (queued ids)) in
      (refl, rw all.1 refl, rw all.1 (dequeue_task-none all.0 all.2))
