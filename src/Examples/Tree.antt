-- ===== src/Examples/Tree.antt =====
-- The topic tree of mqtt/src/topictree.cpp and the sessions of mqtt/include/mqttsession.h at concrete
-- values.
use culex_mqtt_broker.Common.{
  ℕ, ◌≡◌, ◌≢◌, refl, List, [], ◌∷◌, map, if◌then◌else◌, assign, true, false, string_eq, nat_eq,
  string_beq, arith,
}
use culex_mqtt_broker.TopicTree.{
  Node, empty_tree, split, split_loop, subscribers_at, match, subscribe, unsubscribe,
}
use culex_mqtt_broker.TopicTree.Refinement.{
  IsPlain, TreeCall, subscribes, unsubscribes, matches, tree_run, directory_run, match-tree_run,
}
use culex_mqtt_broker.TopicTree.Filters.{reaches}
use culex_mqtt_broker.TopicTree.Subscribing.{subscribe_any_filter, match-subscribe}
use culex_mqtt_broker.ClientSession.{ClientSession, new_client_session}
use culex_mqtt_broker.ClientSession.PacketIds.{IsPacketId, nth_packet_id, packet_ids_distinct}

abbrev alice : List ℕ
alice = b'a' ∷ []

abbrev bob : List ℕ
bob = b'b' ∷ []

-- The topic `/t/u`.
abbrev topic : List ℕ
topic = b'/' ∷ b't' ∷ b'/' ∷ b'u' ∷ []

topic-IsPlain : IsPlain topic
unfolding split split_loop string_beq
topic-IsPlain = ((refl, refl), ((refl, refl), ((refl, refl), tt)))

abbrev alice_tree : Node
alice_tree = subscribe topic alice 7 1 empty_tree

abbrev history : List TreeCall
history =
    subscribes topic alice 7 1
    ∷ matches topic
    ∷ subscribes topic bob 8 2
    ∷ unsubscribes topic alice
    ∷ []

match-tree_run_example :
    (match topic (tree_run empty_tree history)).1
    ≡ map (λ s. s.1) (directory_run (λ p. []) history (split topic))
match-tree_run_example =
    match-tree_run history topic
      (topic-IsPlain, (topic-IsPlain, (topic-IsPlain, (topic-IsPlain, tt)))) topic-IsPlain

-- The filter `/t/#`.
abbrev filter : List ℕ
filter = b'/' ∷ b't' ∷ b'/' ∷ b'#' ∷ []

-- A subscription to the filter where the level `t` has the child `u`.
subscribe_any_filter_example :
    subscribers_at (split topic) (subscribe filter bob 8 1 (tree_run empty_tree history)) ≡ (
      if reaches (split filter) (split topic) (tree_run empty_tree history)
      then assign bob
          (record { session = 8; qos = 1 })
          (subscribers_at (split topic) (tree_run empty_tree history))
      else subscribers_at (split topic) (tree_run empty_tree history))
subscribe_any_filter_example = subscribe_any_filter history filter bob 8 1 (split topic)

match-subscribe_example :
    (match topic (subscribe filter alice 7 2 (tree_run empty_tree history))).1
    ≡ map
        (λ s. s.1)
        (if reaches (split filter) (split topic) (tree_run empty_tree history)
          then assign alice
              (record { session = 7; qos = 2 })
              (subscribers_at (split topic) (tree_run empty_tree history))
          else subscribers_at (split topic) (tree_run empty_tree history))
match-subscribe_example = match-subscribe history filter alice 7 2 topic topic-IsPlain

-- With the history the filter reaches the topic, and in the empty tree it does not.
reached_in_history : reaches (split filter) (split topic) (tree_run empty_tree history) ≡ true
unfolding reaches split split_loop tree_run unsubscribe subscribe match string_beq
reached_in_history = refl

filter_lost : reaches (split filter) (split topic) empty_tree ≡ false
unfolding reaches split split_loop string_beq
filter_lost = refl

abbrev worn_session : ClientSession
worn_session = record (new_client_session 7) { next_packet_id = 65535 }

packet_ids_distinct_example :
    IsPacketId (nth_packet_id 0 worn_session)
    × (nth_packet_id 0 worn_session ≢ nth_packet_id 65534 worn_session)
packet_ids_distinct_example =
    packet_ids_distinct 0 65534 worn_session (omega arith, omega arith) (omega arith) (omega arith)
