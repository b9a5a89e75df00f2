-- ===== src/Rdt/Constants.antt =====
-- The constants of mp2/src/constants.h, and the packets of mp2/src/adt.h.
use networking_learning.Base.{ℕ, List, replicate}

abbrev pub max_payload_len : ℕ
max_payload_len = 1444

-- WINDOW: the slots of the receiver's queue, and of the sender's buffer of acks.
abbrev pub window_slots : ℕ
window_slots = 4096

pub record AckPacket : Type 0 where
  pub seq_num : ℕ
  pub ack_num : ℕ
  pub fin_byte : ℕ

-- `content` is the array `data`, of `max_payload_len` bytes.
pub record RdtPacket : Type 0 where
  pub seq_num : ℕ
  pub ack_num : ℕ
  pub payload : ℕ
  pub fin_byte : ℕ
  pub content : List ℕ

-- The size of an `rdt_packet`: its fields take 1455 bytes, and the alignment of `uint32_t` one more.
abbrev pub rdt_packet_size : ℕ
rdt_packet_size = 1456

-- `rdt_packet pkt = {0}`
unfoldable pub zero_packet : RdtPacket
zero_packet = record {
  seq_num = 0;
  ack_num = 0;
  payload = 0;
  fin_byte = 0;
  content = replicate max_payload_len 0;
}

-- A reply to `sendto`: sent, EINTR, EWOULDBLOCK or EAGAIN, another error.
pub data SendReply : Type 0 where
  sent interrupted again failed : SendReply
