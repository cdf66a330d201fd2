-- ===== src/Services/EventHub.antt =====
-- Backend/src/services/task_event_hub.cpp. A connection is known by its address, which is not null;
-- the map of a user's subscribers holds the addresses, and the map of a user without any is erased,
-- which the functions below do not tell from an empty one. The lock is held during a whole operation.
pub mod Laws
use text2image.Base.{
  ℕ, ◌==◌, ℤ, pos, leb_ℤ, eqb_ℤ, Bool, true, false, not, ◌&&◌, ◌||◌, Option, none, some, List, [],
  ◌∷◌, keep, is_empty, if◌then◌else◌,
}

abbrev pub Connection : Type 0
Connection = ℕ

pub record Hub : Type 0 where
  pub subscribers : ℤ → Connection → Bool
  pub owners : Connection → Option ℤ

abbrev pub empty_hub : Hub
empty_hub = record { subscribers = λ user_id key. false; owners = λ key. none }

unfoldable pub subscribe : ℤ → Connection → Hub → Hub
subscribe user_id key hub = if leb_ℤ user_id (pos 0) then hub else record {
  subscribers = λ u k. (eqb_ℤ u user_id && k == key) || hub.subscribers u k;
  owners = λ k. if k == key then some user_id else hub.owners k;
}

abbrev without : Connection → Hub → Option ℤ → Hub
without key hub none = hub
without key hub (some user_id) = record {
  subscribers = λ u k. hub.subscribers u k && not (eqb_ℤ u user_id && k == key);
  owners = λ k. if k == key then none else hub.owners k;
}

unfoldable pub unsubscribe : Connection → Hub → Hub
unsubscribe key hub = without key hub (hub.owners key)

-- Whether `publishTaskUpdated` sends an event of this user's task over the connection.
unfoldable pub receives : ℤ → Connection → Hub → Bool
receives user_id key hub = if leb_ℤ user_id (pos 0) then false else hub.subscribers user_id key
