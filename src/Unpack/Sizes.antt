-- ===== src/Unpack/Sizes.antt =====
-- The length that a deserialized packet reports, by which `parseData` moves its buffer on.
use culex_mqtt_broker.Common.{
  ℕ, ◌≤◌, ◌≡◌, refl, List, ◌∷◌, Option, some, none, Outcome, done, get_elem?, get_elem?-All, All,
  arith,
}
use culex_mqtt_broker.Core.{Core}
use culex_mqtt_broker.Packets.{Packet, mqtt_ok}
use culex_mqtt_broker.Packets.Flags.{unpack_header}
use culex_mqtt_broker.Unpack.{
  Unpacked, dispatch, set_pkt_len, framed, unpack_connect, unpack_publish, unpack_ack,
  unpack_subscribe, unpack_unsubscribe, unpack_handlers, unpack,
}
use culex_mqtt_broker.Unpack.Frame.{is_partial_complete, framed_ok}

-- The header is kept, and the packet's length is at least 2 and at most the available bytes.
abbrev Fits : Packet → Packet → ℕ → Type 0
Fits packet packet' available =
    (packet'.header ≡ packet.header) × (2 ≤ packet'.pkt_len) × (packet'.pkt_len ≤ available)

-- A body that keeps the header and sets the length as the source does.
abbrev Measures : Packet → List ℕ → (ℕ → List ℕ → Outcome Unpacked) → Type 0
Measures packet mem body =
    (n : ℕ) (start after : List ℕ) (packet' : Packet)
    → body n start ≡ done (mqtt_ok, packet', after)
    → (packet'.header ≡ packet.header)
      × (packet'.pkt_len ≡ (set_pkt_len packet mem start n).pkt_len)

framed-Fits :
    (packet packet' : Packet) (mem after : List ℕ) (available : ℕ)
    (body : ℕ → List ℕ → Outcome Unpacked)
    → Measures packet mem body
    → framed packet mem available body ≡ done (mqtt_ok, packet', after)
    → Fits packet packet' available
framed-Fits packet packet' mem after available body m e =
    let (n, start, p, b) = framed_ok packet packet' mem after available body e in
    ground (arith, is_partial_complete mem available n start p, m n start after packet' b)

-- An entry of the jump table; a null entry is never called.
abbrev EntryFits : Option (Packet → List ℕ → ℕ → Outcome Unpacked) → Type 0
EntryFits none = Unit {0}
EntryFits (some handler) =
    (packet packet' : Packet) (mem after : List ℕ) (available : ℕ)
    → handler packet mem available ≡ done (mqtt_ok, packet', after)
    → Fits packet packet' available

dispatch-Fits :
    (packet packet' : Packet) (mem after : List ℕ) (available : ℕ)
    (entry : Option (Option (Packet → List ℕ → ℕ → Outcome Unpacked)))
    → ((handler : Option (Packet → List ℕ → ℕ → Outcome Unpacked))
        → entry ≡ some handler
        → EntryFits handler)
    → dispatch entry packet mem available ≡ done (mqtt_ok, packet', after)
    → Fits packet packet' available
dispatch-Fits packet packet' mem after available none h e = cc
dispatch-Fits packet packet' mem after available (some none) h e = cc
dispatch-Fits packet packet' mem after available (some (some f)) h e =
    h (some f) refl packet packet' mem after available e

module _ (c : Core) where
  unpack_connect-Fits : EntryFits (some (unpack_connect c))
  unfolding unpack_connect
  unpack_connect-Fits packet packet' mem after available e =
      framed-Fits packet packet' mem after available _ (λ n start a p b. ground arith) e

  unpack_publish-Fits : EntryFits (some (unpack_publish c))
  unfolding unpack_publish
  unpack_publish-Fits packet packet' mem after available e =
      framed-Fits packet packet' mem after available _ (λ n start a p b. ground arith) e

  unpack_ack-Fits : EntryFits (some (unpack_ack c))
  unfolding unpack_ack
  unpack_ack-Fits packet packet' mem after available e =
      framed-Fits packet packet' mem after available _ (λ n start a p b. ground arith) e

  unpack_subscribe-Fits : EntryFits (some (unpack_subscribe c))
  unfolding unpack_subscribe
  unpack_subscribe-Fits packet packet' mem after available e =
      framed-Fits packet packet' mem after available _ (λ n start a p b. ground arith) e

  unpack_unsubscribe-Fits : EntryFits (some (unpack_unsubscribe c))
  unfolding unpack_unsubscribe
  unpack_unsubscribe-Fits packet packet' mem after available e =
      framed-Fits packet packet' mem after available _ (λ n start a p b. ground arith) e

  unpack_handlers-Fits : All EntryFits (unpack_handlers c)
  unfolding unpack_handlers
  unpack_handlers-Fits = (
    tt,
    (
      unpack_connect-Fits,
      (
        tt,
        (
          unpack_publish-Fits,
          (
            unpack_ack-Fits,
            (
              unpack_ack-Fits,
              (
                unpack_ack-Fits,
                (unpack_ack-Fits, (unpack_subscribe-Fits, (tt, (unpack_unsubscribe-Fits, tt)))),
              ),
            ),
          ),
        ),
      ),
    ),
  )

  -- If `unpack` succeeds on memory from which `unpack_u8` reads the first byte, it has read the
  -- header from that byte, and the packet that it reports has at least 2 bytes and no more than
  -- are available: erasing it stays within the buffer.
  pub unpack_ok_fits :
      (packet packet' : Packet) (b : ℕ) (mem after : List ℕ) (available : ℕ)
      → c.unpack_u8 (b ∷ mem) ≡ done (b, mem)
      → unpack c packet (b ∷ mem) available ≡ done (mqtt_ok, packet', after)
      → (packet'.header ≡ unpack_header b) × (2 ≤ packet'.pkt_len) × (packet'.pkt_len ≤ available)
  unfolding unpack
  unpack_ok_fits packet packet' b mem after available r e =
      let h : Packet = record packet { header = unpack_header b } in
      dispatch-Fits h packet' mem after available (get_elem? (unpack_handlers c) h.header.kind)
        (λ handler found. get_elem?-All EntryFits _ h.header.kind unpack_handlers-Fits found)
        (rw r at e)
