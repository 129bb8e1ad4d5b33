-- ===== src/Manager/Invariant/Resending.antt =====
-- The PUBLISH packets that `processRetransmissions` of mqtt/src/managesession.cpp sends again, to the byte.
use culex_mqtt_broker.Common.{
  ℕ, suc, ◌+◌, ◌^◌, ◌≤◌, ◌<◌, ◌≡◌, refl, sym, ap, ◌∙◌, Bool, true, List, [], ◌∷◌, ◌++◌, Option,
  some, inl, inr, ltb, leb, nat_beq, none-or-some, false, Bool-cases, nil-or-cons, if◌then◌else◌,
  done, ◌>>=◌, length, length-append, arith,
}
use mathlib.Core.Path.{subst}
use culex_mqtt_broker.Core.{Core, Writes}
use culex_mqtt_broker.Packets.Kind
use culex_mqtt_broker.Packets.{Packet, Publish, publish}
use culex_mqtt_broker.Packets.Flags.{Header}
use culex_mqtt_broker.Build.{Host, build_publish}
use culex_mqtt_broker.Build.Publishes.{unnumbered, build_publish_bytes}
use culex_mqtt_broker.Unpack.Wire.{IsShort, bytes_if, u16_bytes, frame_bytes, publish_bytes}
use culex_mqtt_broker.Unpack.Wire.Publishing.{length-bytes_if}
use culex_mqtt_broker.TopicTree
use culex_mqtt_broker.TopicTree.{Subscription}
use culex_mqtt_broker.ClientSession.{ClientSession, get_packet}
use culex_mqtt_broker.Manager.{Manager, RetransmitEntry, lock_client}
use culex_mqtt_broker.Manager.Routing.{
  min_qos, as_duplicate, retransmit, retransmit_top, pop_retransmit, process_retransmissions,
}
use culex_mqtt_broker.Manager.Routing.Delivery.{copy_to}
use culex_mqtt_broker.Manager.Routing.Retransmission.{
  retransmit_top_blocked, process_retransmissions_top,
}
use culex_mqtt_broker.Manager.Invariant.{IsValid}
use culex_mqtt_broker.Manager.Invariant.Routing.{dues}
use culex_mqtt_broker.Manager.Invariant.Receivers.{route}
use culex_mqtt_broker.Manager.Invariant.Sends.{sends, sends_gone, sends_there}
use culex_mqtt_broker.Manager.Invariant.Recipients.{
  bytes_at, value, route_packet-sends, pop_retransmit_sent,
}
use culex_mqtt_broker.Manager.Invariant.Retransmission.{
  top_due, retransmit_top-dues, process_retransmissions_empty, process_retransmissions_more, go_on,
}

-- A packet on the wire with DUP set, at a QoS, and with the packet id 0.
abbrev pub duplicate_at : Packet → Publish → ℕ → List ℕ
duplicate_at packet p qos =
    let h : Header = record {
      kind = packet.header.kind;
      dup = true;
      qos = qos;
      retain = packet.header.retain;
    } in
    frame_bytes h (publish_bytes h (unnumbered p))

-- Only the bytes at a QoS up to the first one are asked for.
sends_same :
    (f : Subscription → Option (Option ℕ)) (bytes bytes' : ℕ → List ℕ) (qos : ℕ)
    (subs : List Subscription)
    → ((q : ℕ) → q ≤ qos → bytes q ≡ bytes' q)
    → sends f bytes qos subs ≡ sends f bytes' qos subs
unfolding sends
sends_same f bytes bytes' qos [] same = refl
sends_same f bytes bytes' qos (sub ∷ subs) same = elim (none-or-some (f sub)) [
  | inl gone ↦
      sends_gone f bytes qos sub subs gone
      ∙ sends_same f bytes bytes' qos subs same
      ∙ sym (sends_gone f bytes' qos sub subs gone)
  | inr (o, there) ↦
      let lower : min_qos qos sub.qos ≤ qos = ground arith in
      sends_there f bytes qos sub subs o there
      ∙ ap (λ x. copy_to o x ++ sends f bytes (min_qos qos sub.qos) subs) (same _ lower)
      ∙ ap (λ l. copy_to o (bytes' (min_qos qos sub.qos)) ++ l)
          (sends_same f bytes bytes' (min_qos qos sub.qos) subs
            (λ q le. same q (omega (arith, le, lower))))
      ∙ sym (sends_there f bytes' qos sub subs o there)
]

two_bytes : (b : Bool) → (if b then 2 else 0) ≤ 2
two_bytes b = ground arith

publish_size :
    (h : Header) (p : Publish)
    → length p.topic + length p.payload + 4 < 2 ^ 31
    → length (publish_bytes h (unnumbered p)) < 2 ^ 31
publish_size h p small =
    let b = ltb 0 h.qos in
    let i = bytes_if b (u16_bytes 0) in
    omega (
      arith,
      length-append p.topic (i ++ p.payload),
      length-append i p.payload,
      length-bytes_if b 0,
      two_bytes b,
    )

module _ (c : Core) (host : Host) where
  -- Nothing is done where no entry is due.
  process_retransmissions_idle :
      (fuel : ℕ) (m : Manager)
      → dues m.now m ≡ 0
      → process_retransmissions c host (suc fuel) m ≡ done m
  process_retransmissions_idle fuel m idle = elim (nil-or-cons m.retransmit_heap) [
    | inl empty ↦ process_retransmissions_empty c host fuel m empty
    | inr (e, h, top) ↦
        let early : m.now < e.retry_ms = elim (Bool-cases (leb e.retry_ms m.now)) [
          | inl is_due ↦
              absurd (omega (arith, idle, top_due m.now m e h top (ground (arith, is_due))))
          | inr late ↦ ground (arith, late)
        ] in
        process_retransmissions_top c host fuel m e h m.retransmit_heap top
          (retransmit_top_blocked c host m e (inl early))
  ]

  bytes_at-duplicate :
      (packet : Packet) (p : Publish) (q : ℕ)
      → Writes c
      → packet.pkt ≡ publish p
      → packet.header.kind ≡ Kind.publish
      → q < 4
      → IsShort p.topic
      → length p.topic + length p.payload + 4 < 2 ^ 31
      → bytes_at c host (as_duplicate packet) q ≡ duplicate_at packet p q
  bytes_at-duplicate packet p q writes body kind hq ht small =
      let h : Header = record {
        kind = packet.header.kind;
        dup = true;
        qos = q;
        retain = packet.header.retain;
      } in
      let made =
        ap (λ x. build_publish c (record { header = h; pkt_len = packet.pkt_len; pkt = x }) 0 [])
          body
        ∙ build_publish_bytes c writes h packet.pkt_len p 0 [] (omega (arith, kind)) hq ht
            (publish_size h p small) in
      ap value made

  retransmit_top-sends :
      (e : RetransmitEntry) (cs : ClientSession) (p : Publish) (m : Manager)
      → IsValid m
      → e.retry_ms ≤ m.now
      → lock_client e.session m ≡ some cs
      → e.packet_type ≡ Kind.publish
      → 0 < (get_packet e.packet_id e.packet_type cs).pkt_len
      → (get_packet e.packet_id e.packet_type cs).pkt ≡ publish p
      → (get_packet e.packet_id e.packet_type cs).header.kind ≡ Kind.publish
      → (m' : Manager) × (retransmit_top c host e m ≡ done (some m'))
        × (m'.sent
            ≡ m.sent
              ++ sends
                  (route m)
                  (bytes_at c host (as_duplicate (get_packet e.packet_id e.packet_type cs)))
                  (get_packet e.packet_id e.packet_type cs).header.qos
                  (TopicTree.match p.topic m.topic_tree).1)
  unfolding retransmit_top retransmit
  retransmit_top-sends e cs p m v due there kind_of_entry held body kind =
      let packet = as_duplicate (get_packet e.packet_id e.packet_type cs) in
      let (m₁, packet', routed, sent) = route_packet-sends c host packet p m v body kind in
      let is_due : leb e.retry_ms m.now ≡ true = ground (arith, due) in
      let full : nat_beq (get_packet e.packet_id e.packet_type cs).pkt_len 0 ≡ false =
        ground (arith, held) in
      let is_publish : nat_beq e.packet_type Kind.publish ≡ true = ground (arith, kind_of_entry) in
      (
        pop_retransmit m₁,
        rw (retransmit_top, is_due, there, full, retransmit, is_publish, routed) refl,
        pop_retransmit_sent m₁ ∙ sent,
      )

  -- In a valid state in which exactly one entry of the retransmission heap is due and it is on top,
  -- for a PUBLISH packet that its session still holds, `processRetransmissions` comes to an end within
  -- two rounds, nothing is due any more, and behind what was sent already it has sent exactly this: the
  -- packet with its topic and its payload, with DUP set and with the packet id 0, one for each of the
  -- subscriptions that the topic tree finds for the topic and whose client is connected and has its
  -- connection, in their order, at a QoS that starts at that of the packet and goes down to that of
  -- each subscription of a connected client. So it is sent to every subscriber, and not only to the one
  -- that has not acknowledged it. The functions of culex-core that write do so as documented, the QoS is
  -- below 4, the topic shorter than 2 ^ 16, and topic and payload are together shorter than 2 ^ 31 - 4.
  pub process_retransmissions-sends :
      (fuel : ℕ) (e : RetransmitEntry) (heap : List RetransmitEntry) (cs : ClientSession)
      (packet : Packet) (p : Publish) (m : Manager)
      → Writes c
      → IsValid m
      → m.retransmit_heap ≡ e ∷ heap
      → e.retry_ms ≤ m.now
      → dues m.now m ≡ 1
      → lock_client e.session m ≡ some cs
      → e.packet_type ≡ Kind.publish
      → get_packet e.packet_id e.packet_type cs ≡ packet
      → 0 < packet.pkt_len
      → packet.pkt ≡ publish p
      → packet.header.kind ≡ Kind.publish
      → packet.header.qos < 4
      → IsShort p.topic
      → length p.topic + length p.payload + 4 < 2 ^ 31
      → (m' : Manager) × (process_retransmissions c host (suc (suc fuel)) m ≡ done m')
        × (dues m'.now m' ≡ 0)
        × (m'.sent
            ≡ m.sent
              ++ sends
                  (route m)
                  (duplicate_at packet p)
                  packet.header.qos
                  (TopicTree.match p.topic m.topic_tree).1)
  process_retransmissions-sends fuel e heap cs packet p m writes v top due one there kind_of_entry
        is_packet held body kind hq ht small =
      let (m', again, sent) =
        retransmit_top-sends e cs p m v due there kind_of_entry
          (subst (λ x. 0 < x.pkt_len) (sym is_packet) held) (ap (λ x. x.pkt) is_packet ∙ body)
          (ap (λ x. x.header.kind) is_packet ∙ kind) in
      let (v', clock, less) = retransmit_top-dues c host e heap m m' top v again in
      let idle : dues m'.now m' ≡ 0 = ap (λ t. dues t m') clock ∙ omega (arith, less, one) in
      (
        m',
        process_retransmissions_more c host (suc fuel) m e heap top
            ∙ ap (λ r. r >>= go_on c host (suc fuel) m) again
            ∙ process_retransmissions_idle fuel m' idle,
        idle,
        sent
            ∙ ap
                (λ x.
                  m.sent
                  ++ sends (route m) (bytes_at c host (as_duplicate x)) x.header.qos
                      (TopicTree.match p.topic m.topic_tree).1)
                is_packet
            ∙ ap (λ l. m.sent ++ l)
                (sends_same (route m) (bytes_at c host (as_duplicate packet))
                  (duplicate_at packet p) packet.header.qos _
                  (λ q le.
                    bytes_at-duplicate packet p q writes body kind (omega (arith, le, hq)) ht
                      small)),
      )
