-- ===== src/Find/Handler/Total.antt =====
-- The total of a statistic counts every datagram once.
use arinc_615a_gui_tool_suit.Base.{
  ℕ, ◌+◌, ◌%◌, ◌^◌, ◌≡◌, List, Bytes, some, inl, inr, Result, ok, All, arith, length,
}
use arinc_615a_gui_tool_suit.RawData.{RawData, IsByte}
use arinc_615a_gui_tool_suit.Find.Packet.{Opcode, information_request, information_answer, invalid}
use arinc_615a_gui_tool_suit.Find.Handler.{
  Statistic, count_packet, total, receive_packet, server_handler,
}
use arinc_615a_gui_tool_suit.Find.Handler.Robust.{receive_packet-server}

-- One more packet of `size` bytes in a pair of counters of 64 bits.
abbrev pub one_more : ℕ → ℕ × ℕ → ℕ × ℕ
one_more size t = ((t.0 + 1) % 2 ^ 64, (t.1 + size) % 2 ^ 64)

wrapped_first :
    (a b c n : ℕ) → ((a + n) % 2 ^ 64 + b + c) % 2 ^ 64 ≡ ((a + b + c) % 2 ^ 64 + n) % 2 ^ 64
wrapped_first a b c n = omega arith

wrapped_second :
    (a b c n : ℕ) → (a + (b + n) % 2 ^ 64 + c) % 2 ^ 64 ≡ ((a + b + c) % 2 ^ 64 + n) % 2 ^ 64
wrapped_second a b c n = omega arith

wrapped_third :
    (a b c n : ℕ) → (a + b + (c + n) % 2 ^ 64) % 2 ^ 64 ≡ ((a + b + c) % 2 ^ 64 + n) % 2 ^ 64
wrapped_third a b c n = omega arith

-- Whatever its type, a packet that is counted adds one packet and its bytes to the total.
total-count_packet :
    (type : Opcode) (size : ℕ) (statistic : Statistic)
    → total (count_packet type size statistic) ≡ one_more size (total statistic)
unfolding total count_packet
total-count_packet information_request size s = rw (wrapped_first _ _ _ 1, wrapped_first _ _ _ size)
total-count_packet information_answer size s =
    rw (wrapped_second _ _ _ 1, wrapped_second _ _ _ size)
total-count_packet invalid size s = rw (wrapped_third _ _ _ 1, wrapped_third _ _ _ size)

module _ ⦃lib : RawData⦄ {R : Type 0} (remote : R) (raw_packet : Bytes)
    (statistic : Statistic) where
  -- Whatever bytes a server receives whose request handler throws nothing, the total of its statistic grows by one
  -- packet and the bytes of the datagram, in counters of 64 bits.
  pub total-receive_packet :
      (handler : R → Result (Unit {0})) (calls : List R)
      → handler remote ≡ ok tt
      → All IsByte raw_packet
      → (calls' : List R) × (statistic' : Statistic) × (receive_packet
            (server_handler (some handler))
            remote
            raw_packet
            calls
            statistic
          ≡ ok (calls', statistic'))
        × (total statistic' ≡ one_more (length raw_packet) (total statistic))
  total-receive_packet handler calls quiet bytes =
      elim (receive_packet-server handler remote raw_packet statistic calls bytes) [
        | inl (type, calls', e, step) ↦ (
          calls',
          count_packet type (length raw_packet) statistic,
          e,
          total-count_packet type (length raw_packet) statistic,
        )
        | inr (e, q, throws) ↦ cc (quiet, throws)
      ]
