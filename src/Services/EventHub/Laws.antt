-- ===== src/Services/EventHub/Laws.antt =====
-- Who receives the events of a task.
use text2image.Base.{
  ==_iff, ◌≡◌, ◌≢◌, refl, sym, ◌∙◌, ◌↔◌, ℤ, eqb_ℤ_iff, true, false, Option, none, some, arith,
}
use text2image.Services.EventHub.{
  Connection, Hub, empty_hub, subscribe, without, unsubscribe, receives,
}

-- The two maps agree: a connection is in the map of its owner and in no other.
abbrev pub IsConsistent : Hub → Type 0
IsConsistent hub =
    (user_id : ℤ) (key : Connection)
    → (hub.subscribers user_id key ≡ true) ↔ (hub.owners key ≡ some user_id)

-- What can happen to a hub: a connection that is not subscribed yet subscribes, as a new connection
-- does, and any connection leaves.
pub data Reaches : Hub → Type 0 where
  start : Reaches empty_hub
  subscribes :
      (user_id : ℤ) (key : Connection) (hub : Hub)
      → Reaches hub
      → hub.owners key ≡ none
      → Reaches (subscribe user_id key hub)
  leaves : (key : Connection) (hub : Hub) → Reaches hub → Reaches (unsubscribe key hub)

subscribe-IsConsistent :
    (user_id : ℤ) (key : Connection) (hub : Hub)
    → hub.owners key ≡ none
    → IsConsistent hub
    → IsConsistent (subscribe user_id key hub)
unfolding subscribe
subscribe-IsConsistent user_id key hub fresh c u k =
    grind (arith, c u k, fresh, eqb_ℤ_iff u user_id, ==_iff k key)

without-IsConsistent :
    (key : Connection) (hub : Hub) (owner : Option ℤ)
    → hub.owners key ≡ owner
    → IsConsistent hub
    → IsConsistent (without key hub owner)
without-IsConsistent key hub none e c u k = c u k
without-IsConsistent key hub (some user_id) e c u k =
    grind (arith, c u k, c user_id k, e, eqb_ℤ_iff u user_id, ==_iff k key)

Reaches-IsConsistent : (hub : Hub) → Reaches hub → IsConsistent hub
unfolding unsubscribe
Reaches-IsConsistent _ start u k = ground arith
Reaches-IsConsistent _ (subscribes user_id key hub r fresh) u k =
    subscribe-IsConsistent user_id key hub fresh (Reaches-IsConsistent hub r) u k
Reaches-IsConsistent _ (leaves key hub r) u k =
    without-IsConsistent key hub (hub.owners key) refl (Reaches-IsConsistent hub r) u k

receives-owner :
    (hub : Hub) (user_id : ℤ) (key : Connection)
    → IsConsistent hub
    → receives user_id key hub ≡ true
    → hub.owners key ≡ some user_id
unfolding receives
receives-owner hub user_id key c r = ground (arith, c user_id key)

-- In every hub that subscriptions of new connections and departures reach, a connection receives the
-- events of one user only.
pub receives_one_user :
    (hub : Hub) (user_id other : ℤ) (key : Connection)
    → Reaches hub
    → receives user_id key hub ≡ true
    → receives other key hub ≡ true
    → user_id ≡ other
receives_one_user hub user_id other key reached r s =
    let c = Reaches-IsConsistent hub reached in
    some_same (sym (receives-owner hub user_id key c r) ∙ receives-owner hub other key c s)
  where
    some_same : some user_id ≡ some other → user_id ≡ other
    some_same e = ground arith

not_owner :
    (hub : Hub) (user_id : ℤ) (key : Connection)
    → IsConsistent hub
    → hub.owners key ≢ some user_id
    → receives user_id key hub ≡ false
unfolding receives
not_owner hub user_id key c n = ground (arith, c user_id key)

unsubscribe-owners : (hub : Hub) (key : Connection) → (unsubscribe key hub).owners key ≡ none
unfolding unsubscribe
unsubscribe-owners hub key = without-owners (hub.owners key) refl
  where
    without-owners :
        (owner : Option ℤ) → hub.owners key ≡ owner → (without key hub owner).owners key ≡ none
    without-owners none e = e
    without-owners (some u) e = ground (arith, ==_iff key key)

-- In every hub that subscriptions of new connections and departures reach, a connection that leaves
-- receives the events of no user, and any other receives what it received.
pub receives-unsubscribe :
    (hub : Hub) (user_id : ℤ) (key other : Connection)
    → Reaches hub
    → other ≢ key
    → (receives user_id key (unsubscribe key hub) ≡ false)
      × (receives user_id other (unsubscribe key hub) ≡ receives user_id other hub)
unfolding unsubscribe receives
receives-unsubscribe hub user_id key other reached apart =
    let gone = unsubscribe-owners hub key in
    (
      not_owner (unsubscribe key hub) user_id key (Reaches-IsConsistent _ (leaves key hub reached))
          (λ e. absurd (sym gone ∙ e)),
      kept (hub.owners key) apart,
    )
  where
    absurd : none ≡ some user_id → ⊥
    absurd e = ground arith

    kept :
        (owner : Option ℤ)
        → other ≢ key
        → receives user_id other (without key hub owner) ≡ receives user_id other hub
    kept none n = refl
    kept (some u) n = grind (arith, ==_iff other key)
