-- ===== src/Session/Publishing.antt =====
-- A PUBLISH packet of QoS 0 from the bytes that have come to what is sent: `parseData` of
-- mqtt/src/mqttsession.cpp with `unpack`, `publishHandler` and `routePacket`.
use culex_mqtt_broker.Common.{
  ℕ, ◌^◌, ◌<◌, ◌≡◌, refl, ap, ◌∙◌, Bool, true, List, [], ◌++◌, map, some, none, nat_beq, Outcome,
  done, ◌>>=◌, length, length-append, get_elem?, arith,
}
use culex_mqtt_broker.Core.{Core, Reads, Writes}
use culex_mqtt_broker.Packets.Kind
use culex_mqtt_broker.Packets.{Packet, Publish, publish, mqtt_ok, default_packet}
use culex_mqtt_broker.Packets.Flags.{Header}
use culex_mqtt_broker.Build.{Host, build_publish}
use culex_mqtt_broker.Build.Publishes.{unnumbered, build_publish_bytes}
use culex_mqtt_broker.Unpack.Wire.{IsShort, publish_bytes, frame_bytes}
use culex_mqtt_broker.Unpack.Wire.Publishing.{unpack-publish}
use culex_mqtt_broker.TopicTree
use culex_mqtt_broker.TopicTree.{Node, split, subscribers_at}
use culex_mqtt_broker.TopicTree.Refinement.{IsPlain, match_plain}
use culex_mqtt_broker.Manager.{Manager, MqttSession, update_activity}
use culex_mqtt_broker.Manager.Routing.{route_packet}
use culex_mqtt_broker.Manager.Routing.Delivery.{
  route_publish, copies, copies_after, deliver_all_zero,
}
use culex_mqtt_broker.Handlers.{Handled, publish_received, publish_handler}
use culex_mqtt_broker.Handlers.ExactlyOnce.{publish_handler_body}
use culex_mqtt_broker.Session.{Handler, Parsed, parsed, parse_data, handlers, answer, call_handler}

-- A PUBLISH packet of QoS 0 on the wire.
abbrev pub zero_header : Bool → Bool → Header
zero_header dup retain = record { kind = 3; dup = dup; qos = 0; retain = retain }

abbrev pub zero_bytes : Bool → Bool → Publish → List ℕ
zero_bytes dup retain p =
    frame_bytes (zero_header dup retain) (publish_bytes (zero_header dup retain) p)

-- The manager after a PUBLISH packet of QoS 0 to a plain topic: the subscriptions at the topic have
-- been sent a copy each, and the walk of the tree may have added nodes.
abbrev pub relayed : List ℕ → List ℕ → Manager → Manager
relayed topic bytes m = record m {
  topic_tree = (TopicTree.match topic m.topic_tree).0;
  sent = m.sent ++ copies m (map (λ s. s.1) (subscribers_at (split topic) m.topic_tree)) bytes;
}

module _ (c : Core) (host : Host) where
  -- A packet that its handler has dealt with.
  pub parsed_ok :
      (self : MqttSession) (pkt : Packet) (recv bytes : List ℕ) (m m' : Manager) (handle : Handler)
      → get_elem? (handlers c host) pkt.header.kind ≡ some (some handle)
      → handle pkt [] m self ≡ done (mqtt_ok, bytes, m')
      → parsed c host mqtt_ok pkt recv m self ≡ done (self, c.erase_front pkt.pkt_len recv, m')
  unfolding parsed answer
  parsed_ok self pkt recv bytes m m' handle found handled =
      let go_on : Outcome Handled → Outcome Parsed =
        λ r. r >>= answer self pkt (c.erase_front pkt.pkt_len recv) in
      ap (λ o. go_on (call_handler c host o pkt m self)) found ∙ ap go_on handled

  route_packet_zero :
      (pkt : Packet) (p : Publish) (bytes : List ℕ) (m : Manager)
      → pkt.header.kind ≡ Kind.publish
      → pkt.header.qos ≡ 0
      → pkt.pkt ≡ publish p
      → IsPlain p.topic
      → build_publish c pkt 0 [] ≡ done bytes
      → route_packet c host pkt none m ≡ done (relayed p.topic bytes m, pkt)
  route_packet_zero pkt p bytes m kind zero body plain built =
      let tree = (TopicTree.match p.topic m.topic_tree).0 in
      let subs = (TopicTree.match p.topic m.topic_tree).1 in
      route_publish c host pkt p m kind body
      ∙ deliver_all_zero c host subs pkt bytes (record m { topic_tree = tree }) kind zero built
      ∙ ap (λ l. done (record m { topic_tree = tree; sent = m.sent ++ l }, pkt))
          (copies_after m m.sent tree subs bytes
            ∙ ap (λ l. copies m l bytes) (match_plain p.topic m.topic_tree [] plain).0)

  publish_received_zero :
      (pkt : Packet) (p : Publish) (buff : List ℕ) (m m' : Manager) (self : MqttSession)
      → pkt.header.qos ≡ 0
      → route_packet c host pkt none m ≡ done (m', pkt)
      → publish_received c host pkt p buff m self ≡ done (mqtt_ok, buff, m')
  unfolding publish_received
  publish_received_zero pkt p buff m m' self zero routed =
      let is_zero : nat_beq pkt.header.qos 0 ≡ true = ground (arith, zero) in
      rw (is_zero, routed) refl

module _ (c : Core) (host : Host) (reads : Reads c) (writes : Writes c) where
  -- A PUBLISH packet of QoS 0 to a topic without wildcards, that a connection sends whole, is taken
  -- from the receive buffer, and each subscription at the topic whose client is connected is sent the
  -- very bytes that came, in the order of the subscriptions. Nothing else is sent, and nothing else
  -- of the manager changes but the sender's time of activity and nodes that the walk adds to the tree.
  pub parse_data_publish :
      (self : MqttSession) (dup retain : Bool) (p : Publish) (rest : List ℕ) (m : Manager)
      → IsShort p.topic
      → IsPlain p.topic
      → length (publish_bytes (zero_header dup retain) p) < 128 ^ 3
      → parse_data c host self (zero_bytes dup retain p ++ rest) m
        ≡ done (
          self,
          c.erase_front (length (zero_bytes dup retain p)) (zero_bytes dup retain p ++ rest),
          relayed p.topic (zero_bytes dup retain p) (update_activity self.client_id m),
        )
  unfolding parse_data
  parse_data_publish self dup retain p rest m short plain small =
      let h = zero_header dup retain in
      let bytes = zero_bytes dup retain p in
      let pkt : Packet = record {
        header = h;
        pkt_len = length bytes;
        pkt = publish (unnumbered p);
      } in
      let read =
        unpack-publish c reads default_packet h (unnumbered p) rest (length (bytes ++ rest)) refl
          (omega arith) short (omega arith) small (omega (arith, length-append bytes rest)) in
      let built =
        build_publish_bytes c writes h (length bytes) (unnumbered p) 0 [] (omega arith)
          (omega arith) short (omega (arith, small)) in
      let active = update_activity self.client_id m in
      let routed =
        route_packet_zero c host pkt (unnumbered p) bytes active refl refl refl plain built in
      let handled =
        publish_handler_body c host pkt (unnumbered p) [] m self refl
        ∙ publish_received_zero c host pkt (unnumbered p) [] active (relayed p.topic bytes active)
            self refl routed in
      ap (λ r. r >>= λ u. parsed c host u.0 u.1 (bytes ++ rest) m self) read
      ∙ parsed_ok c host self pkt (bytes ++ rest) [] m (relayed p.topic bytes active)
          (publish_handler c host) (unfold handlers in refl) handled
