-- ===== src/Manager/Invariant/Clients.antt =====
-- The methods of `ClientSession`, and writes through a shared pointer to one.
use culex_mqtt_broker.Common.{
  ℕ, ◌+◌, ◌%◌, ◌<◌, ◌≡◌, refl, ap, ◌∙◌, none, some, nat_beq, nat_eq, if-cases, All, done,
  >>=-eq-done, done-injective, string_eq, find, erase, insert-All, erase-All, arith,
}
use mathlib.Core.Path.{subst}
use culex_mqtt_broker.Packets.{
  Packet, Body, Publish, Ack, publish, ack, connack, connect, subscribe, unsubscribe,
  default_packet,
}
use culex_mqtt_broker.Build.{get_publish, get_ack}
use culex_mqtt_broker.ClientSession.{
  ClientSession, allocate_packet_id, store_inflight, store_inflight_ack, remove_from_inflight,
  remove_from_inflight_ack, store_message,
}
use culex_mqtt_broker.ClientSession.PacketIds.{IsPacketId}
use culex_mqtt_broker.Manager.Invariant.{IsPublishAt, IsAckAt, ClientValid}

-- A change that keeps the object's identity, its id, and what holds of it.
pub record IsUpdate (old new : ClientSession) : Type 0 where
  pub same_ref : old.ref ≡ new.ref
  pub same_id : old.client_id ≡ new.client_id
  pub keeps : (next : ℕ) → ClientValid next old → ClientValid next new

pub IsUpdate-trans : {a b c : ClientSession} → IsUpdate a b → IsUpdate b c → IsUpdate a c
IsUpdate-trans h k = record {
  same_ref = h.same_ref ∙ k.same_ref;
  same_id = h.same_id ∙ k.same_id;
  keeps = λ next v. k.keeps next (h.keeps next v);
}

-- A change of fields of which nothing is required.
pub plain-IsUpdate :
    {old new : ClientSession}
    → old.ref ≡ new.ref
    → old.client_id ≡ new.client_id
    → old.next_packet_id ≡ new.next_packet_id
    → old.inflight ≡ new.inflight
    → old.inflight_ack ≡ new.inflight_ack
    → IsUpdate old new
plain-IsUpdate r i n f a = record {
  same_ref = r;
  same_id = i;
  keeps = λ next v. record {
    numbered = subst IsPacketId n v.numbered;
    made = subst (λ x. x < next) r v.made;
    stored = subst (All IsPublishAt) f v.stored;
    acknowledged = subst (All IsAckAt) a v.acknowledged;
  };
}

get_publish-eq-done : (b : Body) (p : Publish) → get_publish b ≡ done p → b ≡ publish p
get_publish-eq-done (publish q) p e = ap publish (done-injective q p e)
get_publish-eq-done (ack q) p e = cc
get_publish-eq-done (connack q) p e = cc
get_publish-eq-done (connect q) p e = cc
get_publish-eq-done (subscribe q) p e = cc
get_publish-eq-done (unsubscribe q) p e = cc

get_ack-eq-done : (b : Body) (p : Ack) → get_ack b ≡ done p → b ≡ ack p
get_ack-eq-done (ack q) p e = ap ack (done-injective q p e)
get_ack-eq-done (publish q) p e = cc
get_ack-eq-done (connack q) p e = cc
get_ack-eq-done (connect q) p e = cc
get_ack-eq-done (subscribe q) p e = cc
get_ack-eq-done (unsubscribe q) p e = cc

pub allocate_packet_id-IsUpdate : (cs : ClientSession) → IsUpdate cs (allocate_packet_id cs).0
unfolding allocate_packet_id
allocate_packet_id-IsUpdate cs =
    if-cases (λ (r : ClientSession × ℕ). IsUpdate cs r.0)
      (nat_beq ((cs.next_packet_id + 1) % 65536) 0) _ _
      (λ wraps. record {
        same_ref = refl;
        same_id = refl;
        keeps = λ next v. record {
          numbered = omega arith;
          made = v.made;
          stored = v.stored;
          acknowledged = v.acknowledged;
        };
      })
      (λ counts. record {
        same_ref = refl;
        same_id = refl;
        keeps = λ next v. record {
          numbered = ground arith;
          made = v.made;
          stored = v.stored;
          acknowledged = v.acknowledged;
        };
      })

pub store_inflight-IsUpdate :
    (packet : Packet) (cs cs' : ClientSession)
    → store_inflight packet cs ≡ done cs'
    → IsUpdate cs cs'
unfolding store_inflight
store_inflight-IsUpdate packet cs cs' e =
    let (p, got, stored) = >>=-eq-done (get_publish packet.pkt) _ e in
    subst (IsUpdate cs) (done-injective _ _ stored) (record {
      same_ref = refl;
      same_id = refl;
      keeps = λ next v. record {
        numbered = v.numbered;
        made = v.made;
        stored =
            insert-All IsPublishAt p.packet_id packet cs.inflight
              (p, get_publish-eq-done packet.pkt p got, refl) v.stored;
        acknowledged = v.acknowledged;
      };
    })

pub store_inflight_ack-IsUpdate :
    (packet : Packet) (cs cs' : ClientSession)
    → store_inflight_ack packet cs ≡ done cs'
    → IsUpdate cs cs'
unfolding store_inflight_ack
store_inflight_ack-IsUpdate packet cs cs' e =
    let (a, got, stored) = >>=-eq-done (get_ack packet.pkt) _ e in
    subst (IsUpdate cs) (done-injective _ _ stored) (record {
      same_ref = refl;
      same_id = refl;
      keeps = λ next v. record {
        numbered = v.numbered;
        made = v.made;
        stored = v.stored;
        acknowledged =
            insert-All IsAckAt a.packet_id packet cs.inflight_ack
              (a, get_ack-eq-done packet.pkt a got, refl) v.acknowledged;
      };
    })

pub store_message-IsUpdate :
    (packet : Packet) (cs : ClientSession) → IsUpdate cs (store_message packet cs)
unfolding store_message
store_message-IsUpdate packet cs = plain-IsUpdate refl refl refl refl refl

pub remove_from_inflight-IsUpdate :
    (packet_id : ℕ) (cs : ClientSession) → IsUpdate cs (remove_from_inflight packet_id cs).0
unfolding remove_from_inflight
remove_from_inflight-IsUpdate packet_id cs =
    elim (find packet_id cs.inflight)
      as (λ o.
        IsUpdate cs
          (elim o as (λ _. ClientSession × Packet) [
            | some pkt ↦ (record cs { inflight = erase packet_id cs.inflight }, pkt)
            | none ↦ (cs, default_packet)
          ]).0) [
            | none ↦ plain-IsUpdate refl refl refl refl refl
            | some pkt ↦ record {
              same_ref = refl;
              same_id = refl;
              keeps = λ next v. record {
                numbered = v.numbered;
                made = v.made;
                stored = erase-All IsPublishAt packet_id cs.inflight v.stored;
                acknowledged = v.acknowledged;
              };
            }
          ]

pub remove_from_inflight_ack-IsUpdate :
    (packet_id : ℕ) (cs : ClientSession) → IsUpdate cs (remove_from_inflight_ack packet_id cs).0
unfolding remove_from_inflight_ack
remove_from_inflight_ack-IsUpdate packet_id cs =
    elim (find packet_id cs.inflight_ack)
      as (λ o.
        IsUpdate cs
          (elim o as (λ _. ClientSession × Packet) [
            | some pkt ↦ (record cs { inflight_ack = erase packet_id cs.inflight_ack }, pkt)
            | none ↦ (cs, default_packet)
          ]).0) [
            | none ↦ plain-IsUpdate refl refl refl refl refl
            | some pkt ↦ record {
              same_ref = refl;
              same_id = refl;
              keeps = λ next v. record {
                numbered = v.numbered;
                made = v.made;
                stored = v.stored;
                acknowledged = erase-All IsAckAt packet_id cs.inflight_ack v.acknowledged;
              };
            }
          ]
