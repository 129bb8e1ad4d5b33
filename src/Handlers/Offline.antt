-- ===== src/Handlers/Offline.antt =====
-- Messages for a client whose session is kept and that is away, and its return: `routePacket` of
-- mqtt/src/managesession.cpp and `connectHandler` of mqtt/src/packethandlers.cpp.
use culex_mqtt_broker.Common.{
  ℕ, ◌<◌, ◌≡◌, refl, sym, ap, ◌∙◌, true, false, List, [], ◌∷◌, ◌++◌, none, some, ltb, nat_beq,
  nat_beq_iff, done, arith,
}
use culex_mqtt_broker.Core.{Core}
use culex_mqtt_broker.Packets.{Packet, Connect, connect, connection_accepted}
use culex_mqtt_broker.Build.{Host}
use culex_mqtt_broker.TopicTree.{Subscription}
use culex_mqtt_broker.ClientSession.{ClientSession, store_message}
use culex_mqtt_broker.Manager.{
  Manager, MqttSession, lock_client, lock_session, session_present, write_client,
}
use culex_mqtt_broker.Manager.Routing.{deliver}
use culex_mqtt_broker.Manager.Routing.Delivery.{lock_session_same}
use culex_mqtt_broker.Manager.Invariant.{IsValid}
use culex_mqtt_broker.Manager.Invariant.Registry.{find-Has}
use culex_mqtt_broker.Manager.Invariant.Lookup.{Has-find_ref, find_ref-replace_ref, written}
use culex_mqtt_broker.Handlers.Sessions.{session_present-write_client}
use culex_mqtt_broker.Handlers.Connecting.{connect_handler}
use culex_mqtt_broker.Handlers.Registration.{
  resumed, set_fields-resumed, connect_handler_present, finish_connect_present,
}

-- A client stands in the registry under its id, and its object is found by its identity.
abbrev pub IsKept : List ℕ → ClientSession → Manager → Type 0
IsKept client_id cs m = (session_present client_id m ≡ some cs) × (lock_client cs.ref m ≡ some cs)

pub IsKept-valid :
    (client_id : List ℕ) (cs : ClientSession) (m : Manager)
    → IsValid m
    → session_present client_id m ≡ some cs
    → IsKept client_id cs m
unfolding session_present
IsKept-valid client_id cs m v there = (
  there,
  Has-find_ref m.next_ref cs m.registry v.clients (find-Has client_id cs m.registry there),
)

pub IsKept-written :
    (client_id : List ℕ) (cs cs' : ClientSession) (m : Manager)
    → cs'.ref ≡ cs.ref
    → IsKept client_id cs m
    → IsKept client_id cs' (write_client cs' m)
IsKept-written client_id cs cs' m same (there, found) =
    let self : nat_beq cs.ref cs'.ref ≡ true = (nat_beq_iff cs.ref cs'.ref).1 (sym same) in
    (
      session_present-write_client client_id cs cs' m there same,
      find_ref-replace_ref cs'.ref cs' m.registry
          ∙ ap (written cs') (ap (λ r. lock_client r m) same ∙ found)
          ∙ rw (self) refl,
    )

module _ (c : Core) (host : Host) where
  deliver_away :
      (sub : Subscription) (cs : ClientSession) (packet : Packet) (m : Manager)
      → lock_client sub.session m ≡ some cs
      → cs.connected ≡ false
      → 0 < packet.header.qos
      → deliver c host sub (m, packet) ≡ done (write_client (store_message packet cs) m, packet)
  unfolding deliver
  deliver_away sub cs packet m there down above =
      let b : ltb 0 packet.header.qos ≡ true = ground (arith, above) in
      rw (deliver, there, down, b) refl

  -- In a valid state, a packet of a QoS above 0 that is delivered to a client that is
  -- not connected, and whose session has no connection, is put at the end of the session's queue of
  -- messages. The CONNECT packet of protocol level 4 with which the client comes back, without
  -- CleanSession, is accepted; afterwards the queue is the same, and a second packet of a QoS above 0
  -- that is delivered to the client is put into the queue behind the first. None of the three steps
  -- sends anything, and the client still counts as not connected.
  pub message_stays_queued :
      (sub : Subscription) (cs : ClientSession) (first second conn : Packet) (cn : Connect)
      (buff : List ℕ) (m : Manager) (self : MqttSession)
      → IsValid m
      → session_present cn.client_id m ≡ some cs
      → cs.connected ≡ false
      → lock_session cs.session m ≡ none
      → sub.session ≡ cs.ref
      → 0 < first.header.qos
      → 0 < second.header.qos
      → conn.pkt ≡ connect cn
      → cn.level ≡ 4
      → cn.cf.cleansession ≡ false
      → (m₁ m₂ m₃ : Manager) × (bytes : List ℕ) × (cs' : ClientSession) × (deliver c host sub
            (m, first)
          ≡ done (m₁, first))
        × (connect_handler c host conn buff m₁ self ≡ done (connection_accepted, bytes, m₂))
        × (deliver c host sub (m₂, second) ≡ done (m₃, second))
        × (session_present cn.client_id m₃ ≡ some cs')
        × (cs'.message_queue ≡ (cs.message_queue ++ first ∷ []) ++ second ∷ [])
        × (cs'.connected ≡ false)
        × (m₃.sent ≡ m.sent)
  unfolding store_message
  message_stays_queued sub cs first second conn cn buff m self v there down gone of_cs above above'
        body level keep =
      let kept = IsKept-valid cn.client_id cs m v there in
      let cs₁ = store_message first cs in
      let m₁ = write_client cs₁ m in
      let kept₁ = IsKept-written cn.client_id cs cs₁ m refl kept in
      let cs₂ = resumed cn cs₁ in
      let m₂ = write_client cs₂ m₁ in
      let kept₂ = IsKept-written cn.client_id cs₁ cs₂ m₁ refl kept₁ in
      let cs₃ = store_message second cs₂ in
      let kept₃ = IsKept-written cn.client_id cs₂ cs₃ m₂ refl kept₂ in
      let (bytes, finished) = finish_connect_present host cn cs₁ m₁ buff self level in
      (
        m₁,
        m₂,
        write_client cs₃ m₂,
        bytes,
        cs₃,
        deliver_away sub cs first m (ap (λ r. lock_client r m) of_cs ∙ kept.1) down above,
        connect_handler_present c host conn cn cs₁ buff m₁ self body keep kept₁.0 down
              (lock_session_same cs.session m₁ m refl refl ∙ gone)
            ∙ ap done (
                finished
                ∙ ap (λ x. (connection_accepted, bytes, write_client x m₁))
                    (set_fields-resumed cn cs₁ level)),
        deliver_away sub cs₂ second m₂ (ap (λ r. lock_client r m₂) of_cs ∙ kept₂.1) down above',
        kept₃.0,
        refl,
        down,
        refl,
      )
