-- ===== src/Unpack/Wire/Connecting.antt =====
-- CONNECT on the wire.
use culex_mqtt_broker.Common.{
  ℕ, ◌*◌, ◌^◌, ◌≤◌, ◌<◌, ◌≡◌, refl, ap, ◌∙◌, Bool, true, false, List, ◌∷◌, ◌++◌, done, length,
  arith, string_beq,
}
use mathlib.Core.List.{append_assoc}
use culex_mqtt_broker.Core.{Core, Reads}
use culex_mqtt_broker.Packets.{Packet, Connect, mqtt_ok, connect}
use culex_mqtt_broker.Packets.Flags.{Header, pack_flags}
use culex_mqtt_broker.Packets.FlagsRoundTrip.{unpack_flags-pack_flags}
use culex_mqtt_broker.Packets.Length.Encode.{base128}
use culex_mqtt_broker.Unpack.{
  unpack, unpack_handlers, connect_rest, connect_body, unpack_connect, string_if, two_strings_if,
  mqtt_name, set_pkt_len,
}
use culex_mqtt_broker.Unpack.Wire.{
  IsShort, u16_bytes, string_bytes, bytes_if, frame_bytes, connect_bytes,
}
use culex_mqtt_broker.Unpack.Wire.Frames.{
  unpack-frame_body, frame_length, unpack_u16-bytes, unpack_string16-bytes,
}

-- The fields are in their ranges.
pub record ConnectFits (cn : Connect) : Type 0 where
  pub will_qos : cn.cf.will_qos < 4
  pub keep_alive : cn.keep_alive < 256 * 256
  pub client_id : IsShort cn.client_id
  pub will_topic : IsShort cn.will_topic
  pub will_msg : IsShort cn.will_msg
  pub username : IsShort cn.username
  pub passwd : IsShort cn.passwd

-- What can be read back: a field whose flag is off is not sent.
abbrev pub as_sent : Connect → Connect
as_sent cn = record cn {
  will_topic = bytes_if cn.cf.will cn.will_topic;
  will_msg = bytes_if cn.cf.will cn.will_msg;
  username = bytes_if cn.cf.username cn.username;
  passwd = bytes_if cn.cf.passwd cn.passwd;
}

-- What follows the protocol's name.
abbrev connect_tail : Connect → List ℕ → List ℕ
connect_tail cn rest =
    cn.level
    ∷ pack_flags cn.cf
    ∷ (u16_bytes cn.keep_alive
        ++ (string_bytes cn.client_id
            ++ (bytes_if cn.cf.will (string_bytes cn.will_topic ++ string_bytes cn.will_msg)
                ++ (bytes_if cn.cf.username (string_bytes cn.username)
                    ++ (bytes_if cn.cf.passwd (string_bytes cn.passwd) ++ rest)))))

module _ (c : Core) (reads : Reads c) where
  string_if-bytes :
      (b : Bool) (s rest : List ℕ)
      → IsShort s
      → string_if c b (bytes_if b (string_bytes s) ++ rest) ≡ done (bytes_if b s, rest)
  string_if-bytes true s rest h = unpack_string16-bytes c reads s rest h
  string_if-bytes false s rest h = refl

  two_strings_if-bytes :
      (b : Bool) (s t rest : List ℕ)
      → IsShort s
      → IsShort t
      → two_strings_if c b (bytes_if b (string_bytes s ++ string_bytes t) ++ rest)
        ≡ done (bytes_if b s, bytes_if b t, rest)
  two_strings_if-bytes true s t rest h k = rw append_assoc (
      rw (
        unpack_string16-bytes c reads s (string_bytes t ++ rest) h,
        unpack_string16-bytes c reads t rest k,
      ))
  two_strings_if-bytes false s t rest h k = refl

  connect_rest-bytes :
      (packet : Packet) (cn : Connect) (rest : List ℕ)
      → ConnectFits cn
      → connect_rest c packet (connect_tail cn rest)
        ≡ done (mqtt_ok, record packet { pkt = connect (as_sent cn) }, rest)
  unfolding connect_rest
  connect_rest-bytes packet cn rest fit =
      let e₃ = bytes_if cn.cf.passwd (string_bytes cn.passwd) ++ rest in
      let e₂ = bytes_if cn.cf.username (string_bytes cn.username) ++ e₃ in
      let e₁ = bytes_if cn.cf.will (string_bytes cn.will_topic ++ string_bytes cn.will_msg) ++ e₂ in
      let flags = unpack_flags-pack_flags cn.cf fit.will_qos in
      rw (
        reads.u8 cn.level _,
        reads.u8 (pack_flags cn.cf) _,
        unpack_u16-bytes c reads cn.keep_alive (string_bytes cn.client_id ++ e₁) fit.keep_alive,
        unpack_string16-bytes c reads cn.client_id e₁ fit.client_id,
        flags.1,
        two_strings_if-bytes cn.cf.will cn.will_topic cn.will_msg e₂ fit.will_topic fit.will_msg,
        string_if-bytes cn.cf.username cn.username e₃ fit.username,
        string_if-bytes cn.cf.passwd cn.passwd rest fit.passwd,
      )

  connect_body-bytes :
      (packet : Packet) (mem : List ℕ) (n : ℕ) (after rest : List ℕ)
      → after ≡ string_bytes mqtt_name ++ rest
      → connect_body c packet mem n after ≡ connect_rest c (set_pkt_len packet mem after n) rest
  unfolding connect_body string_beq
  connect_body-bytes packet mem n after rest e =
      let read : c.unpack_string16 after ≡ done (mqtt_name, rest) =
        rw e (unpack_string16-bytes c reads mqtt_name rest (omega arith)) in
      rw read

  -- If the functions of culex-core that read do so as documented, a CONNECT packet on the wire,
  -- with the protocol's name, fields in their ranges, and a remaining length below 128 ^ 3, is
  -- read back if it is all available: all its fields but those whose flag is off, which come back
  -- empty, and its length. The bytes behind it are left.
  pub unpack-connect :
      (packet : Packet) (h : Header) (cn : Connect) (rest : List ℕ) (available : ℕ)
      → h.kind ≡ 1
      → h.qos < 4
      → ConnectFits cn
      → length (connect_bytes cn) < 128 ^ 3
      → length (frame_bytes h (connect_bytes cn)) ≤ available
      → unpack c packet (frame_bytes h (connect_bytes cn) ++ rest) available
        ≡ done (
          mqtt_ok,
          record {
            header = h;
            pkt_len = length (frame_bytes h (connect_bytes cn));
            pkt = connect (as_sent cn);
          },
          rest,
        )
  unpack-connect packet h cn rest available hk hq fit small fits =
      let body = connect_bytes cn in
      let rest' = connect_tail cn rest in
      let whole : body ++ rest ≡ string_bytes mqtt_name ++ rest' = simp append_assoc in
      unpack-frame_body c reads packet h body rest available (connect_body c) (omega arith) hq
        (rw hk (unfold unpack_handlers unpack_connect in refl)) small fits
      ∙ connect_body-bytes (record packet { header = h }) _ (length body) (body ++ rest) rest' whole
      ∙ connect_rest-bytes
          (set_pkt_len (record packet { header = h }) (base128 4 (length body) ++ (body ++ rest))
            (body ++ rest) (length body))
          cn rest fit
      ∙ ap
          (λ (n : ℕ).
            done (mqtt_ok, record { header = h; pkt_len = n; pkt = connect (as_sent cn) }, rest))
          (frame_length h body rest)
