-- ===== src/Rdt/Sender/Packets.antt =====
-- Which packets the sender builds from the mapped file: an independent description of them, and
-- that `prepare_packet` meets it.
use networking_learning.Base.{
  ℕ, zero, suc, ◌+◌, ◌-◌, ◌*◌, ◌≤◌, ◌<◌, ◌≡◌, ◌⊎◌, inl, inr, refl, Bool, ◌==◌, u32_mod, arith, List,
  [], ◌∷◌, ◌++◌, length, take, drop, replicate, if◌then◌else◌, done, take-fits, drop-replicate,
  length-drop, Bool-cases, mul32, ==→eq,
}
use networking_learning.Rdt.Constants.{max_payload_len, RdtPacket}
use networking_learning.Rdt.Sender.{SenderStat}
use networking_learning.Rdt.Sender.Send.{packet_for, prepare_packet, from_bool}

-- The statistics fit a file that is smaller than 4 GiB.
pub record Describes (s : SenderStat) (file : List ℕ) : Type 0 where
  pub total_pos : 1 ≤ s.total_seq
  pub whole : (s.total_seq - 1) * max_payload_len + s.last_chunk ≡ length file
  pub chunk_pos : 1 ≤ s.last_chunk
  pub chunk_le : s.last_chunk ≤ max_payload_len
  pub small : length file < u32_mod

-- The bytes of the chunk `seq`: at most 1444, from the byte 1444 * seq on.
unfoldable pub chunk : List ℕ → ℕ → List ℕ
chunk file seq = take max_payload_len (drop (max_payload_len * seq) file)

-- The packet that carries the chunk `seq` of a file of `total` chunks.
unfoldable pub packet_at : List ℕ → ℕ → ℕ → RdtPacket
packet_at file total seq = record {
  seq_num = seq;
  ack_num = 0;
  payload = length (chunk file seq);
  fin_byte = from_bool (seq + 1 == total);
  content = chunk file seq ++ replicate (max_payload_len - length (chunk file seq)) 0;
}

-- The packets `seq`, `seq + 1`, … of `n` chunks.
unfoldable pub packets : List ℕ → ℕ → ℕ → ℕ → List RdtPacket
packets file total seq zero = []
packets file total seq (suc n) = packet_at file total seq ∷ packets file total (seq + 1) n

-- The length that the code gives the chunk.
abbrev len_of : SenderStat → ℕ → ℕ
len_of s seq = if seq + 1 == s.total_seq then s.last_chunk else max_payload_len

in_file :
    (s : SenderStat) (file : List ℕ) (seq : ℕ)
    → Describes s file
    → seq < s.total_seq
    → (max_payload_len * seq + len_of s seq ≤ length file) × (len_of s seq ≤ max_payload_len)
in_file s file seq d h = ground arith

rest_of :
    (s : SenderStat) (file : List ℕ) (seq : ℕ)
    → Describes s file
    → seq < s.total_seq
    → (len_of s seq ≡ max_payload_len) ⊎ (length (drop (max_payload_len * seq) file) ≡ len_of s seq)
rest_of s file seq d h = elim (Bool-cases (seq + 1 == s.total_seq)) [
  | inl last ↦
      inr (rw last (omega (arith, length-drop (max_payload_len * seq) file, ==→eq _ _ last)))
  | inr more ↦ inl (rw more)
]

chunk-len_of :
    (s : SenderStat) (file : List ℕ) (seq : ℕ)
    → Describes s file
    → seq < s.total_seq
    → (take (len_of s seq) (drop (max_payload_len * seq) file) ≡ chunk file seq)
      × (len_of s seq ≡ length (chunk file seq))
unfolding chunk
chunk-len_of s file seq d h =
    let (fits, le) = in_file s file seq d h in
    take-fits (len_of s seq) max_payload_len (drop (max_payload_len * seq) file) le
      (omega (arith, length-drop (max_payload_len * seq) file)) (rest_of s file seq d h)

-- If the statistics describe the file, the packet that the loop builds for a chunk of it is the one
-- that carries it, and no byte outside the mapping is read.
pub packet_for_lem :
    (s : SenderStat) (file : List ℕ) (seq : ℕ)
    → Describes s file
    → seq < s.total_seq
    → packet_for file s seq ≡ done (packet_at file s.total_seq seq)
unfolding packet_for packet_at
packet_for_lem s file seq d h = ground (
  arith,
  in_file s file seq d h,
  chunk-len_of s file seq d h,
  drop-replicate {A = ℕ} (len_of s seq) max_payload_len 0,
)

-- The product of MAX_PAYLOAD_LEN and the sequence number is a `uint32_t`: for the chunks between 4 and
-- 8 GiB the packet carries the bytes that stand 4 GiB before those of its chunk.
pub prepare_packet-wraps :
    (pkt : RdtPacket) (file : List ℕ) (seq len : ℕ) (last_seq : Bool)
    → u32_mod ≤ max_payload_len * seq
    → max_payload_len * seq < 2 * u32_mod
    → max_payload_len * seq + len ≤ length file
    → (p : RdtPacket) × (prepare_packet pkt file seq len last_seq ≡ done p)
      × (p.seq_num ≡ seq)
      × (p.content ≡ take len (drop (max_payload_len * seq - u32_mod) file) ++ drop len pkt.content)
unfolding prepare_packet
prepare_packet-wraps pkt file seq len last_seq h k l =
    let e : mul32 max_payload_len seq ≡ max_payload_len * seq - u32_mod = omega arith in
    (
      record {
        seq_num = seq;
        ack_num = 0;
        payload = len;
        fin_byte = from_bool last_seq;
        content = take len (drop (max_payload_len * seq - u32_mod) file) ++ drop len pkt.content;
      },
      ground (arith, e),
      refl,
      refl,
    )
