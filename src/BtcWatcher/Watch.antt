-- ===== src/BtcWatcher/Watch.antt =====
-- crates/btc-watcher/src/watch/: the loop of a watcher (watcher.rs), its builder (watcher_builder.rs)
-- and its handle (watcher_handle.rs). The socket of zeromq and the broadcast channel are parameters; the
-- loop takes a list of what `select!` finds, in order, where a shutdown goes before a message.
use mojave.Base.{ℕ, String, List, [], ◌∷◌, Result, ok, err}
use mojave.Base.Programs.{Program, pure, converting, ◌>>=◌}

-- `F` stands for the errors of zeromq.
pub data Error (E F : Type 0) : Type 0 where
  socket : F → Error E F
  message : E → Error E F
  join_error : F → Error E F

pub record Parts : Type 1 where
  pub E : Type 0
  pub F : Type 0
  -- the socket with its subscriptions, and the channel with its receivers
  pub World : Type 0
  pub Message : Type 0
  pub topics : List String
  pub connect : String → Program World F (Unit {0})
  pub subscribe_topic : String → Program World F (Unit {0})
  -- a channel of this capacity, whose first receiver is dropped
  pub channel : ℕ → World → World
  pub new_receiver : World → World
  pub process_message : Message → World → Result E (Unit {0}) × World

pub data Event (F Message : Type 0) : Type 0 where
  cancelled : Event F Message
  received : Result F Message → Event F Message

pub record WatcherBuilder : Type 0 where
  pub socket_url : String
  pub max_channel_capacity : ℕ
  pub subscription_topics : List String

module _ (parts : Parts) where
  open parts use {
    E, F, World, Message, topics, connect, subscribe_topic, channel, new_receiver, process_message,
  }

  pub data Status : Type 0 where
    watching : World → Status
    returned : Result (Error E F) (Unit {0}) → World → Status

  processed : Result E (Unit {0}) × World → Status
  processed (ok _, world) = watching world
  processed (err e, world) = returned (err (message e)) world

  unfoldable pub turn : Event F Message → World → Status
  unfolding processed
  turn cancelled world = returned (ok tt) world
  turn (received (err e)) world = returned (err (socket e)) world
  turn (received (ok msg)) world = processed (process_message msg world)

  turned : Status → Event F Message → Status
  unfolding turn
  turned (watching world) event = turn event world
  turned (returned result world) event = returned result world

  unfoldable pub watch : List (Event F Message) → Status → Status
  unfolding turned
  watch [] status = status
  watch (event ∷ events) status = watch events (turned status event)

  unfoldable pub new : String → WatcherBuilder
  new socket_url = record {
    socket_url = socket_url;
    max_channel_capacity = 1000;
    subscription_topics = topics;
  }

  abbrev pub with_capacity : WatcherBuilder → ℕ → WatcherBuilder
  with_capacity self capacity = record self { max_channel_capacity = capacity }

  abbrev pub with_topic : WatcherBuilder → String → WatcherBuilder
  with_topic self topic = record self { subscription_topics = topic ∷ [] }

  abbrev pub with_topics : WatcherBuilder → List String → WatcherBuilder
  with_topics self names = record self { subscription_topics = names }

  unfoldable pub subscribe_all : List String → Program World (Error E F) (Unit {0})
  subscribe_all [] = pure tt
  subscribe_all (topic ∷ rest) = do
    _ ← converting socket (subscribe_topic topic)
    subscribe_all rest

  -- up to the start of the loop
  unfoldable pub spawn : WatcherBuilder → Program World (Error E F) (Unit {0})
  spawn self = do
    _ ← converting socket (connect self.socket_url)
    _ ← subscribe_all self.subscription_topics
    λ world. (ok tt, channel self.max_channel_capacity world)

  -- `Watcher::spawn`, without a builder
  unfoldable pub spawn_default : String → ℕ → Program World (Error E F) (Unit {0})
  spawn_default socket_url max_channel_capacity = do
    _ ← converting socket (connect socket_url)
    _ ← subscribe_all topics
    λ world. (ok tt, channel max_channel_capacity world)

  unfoldable pub spawn_with_receiver : String → ℕ → Program World (Error E F) (Unit {0})
  spawn_with_receiver socket_url max_channel_capacity = do
    _ ← spawn (with_capacity (new socket_url) max_channel_capacity)
    λ world. (ok tt, new_receiver world)

  -- `WatcherHandle::join`, by what the task returned
  unfoldable pub join : Result F (Result (Error E F) (Unit {0})) → Result (Error E F) (Unit {0})
  join (ok result) = result
  join (err e) = err (join_error e)
