-- ===== src/Examples/Packets.antt =====
-- Tests of the reception of packets.
use mathlib.Core.List.{flatten}
use cmtp_responder.Base.{ℕ, ◌≡◌, refl, List, [], ◌∷◌, ◌++◌, none, arith, drop}
use cmtp_responder.Base.Bytes.{le_value}
use cmtp_responder.Container.{header_size, read_header}
use cmtp_responder.Examples.Handlers.{around}
use cmtp_responder.Handler.Receive.{Temp}
use cmtp_responder.Base.Packets.{no_more, one_more}
use cmtp_responder.Handler.Receive.Whole.{Holds}
use cmtp_responder.Handler.Receive.First.{receive_file, receive_file-Holds}

abbrev empty_temp : Temp
empty_temp = record {
  cmd_buf = [];
  header_buf = [];
  cmd_size = 0;
  data_size = 0;
  data_count = 0;
  fhandle = none;
  stored = none;
  file_size = 0;
  size_remaining = 0;
  temp_buff = 0 ∷ 0 ∷ 0 ∷ 0 ∷ 0 ∷ 0 ∷ 0 ∷ 0 ∷ 0 ∷ 0 ∷ 0 ∷ 0 ∷ 0 ∷ 0 ∷ 0 ∷ 0 ∷ 0 ∷ 0 ∷ 0 ∷ 0 ∷ [];
}

-- The header announces 35 bytes; this packet has 16 of them.
abbrev first_packet : List ℕ
first_packet = 35 ∷ 0 ∷ 0 ∷ 0 ∷ 2 ∷ 0 ∷ 13 ∷ 16 ∷ 0 ∷ 0 ∷ 0 ∷ 0 ∷ 1 ∷ 2 ∷ 3 ∷ 4 ∷ []

abbrev full_packet : List ℕ
full_packet = 5 ∷ 6 ∷ 7 ∷ 8 ∷ 9 ∷ 10 ∷ 11 ∷ 12 ∷ 13 ∷ 14 ∷ 15 ∷ 16 ∷ 17 ∷ 18 ∷ 19 ∷ 20 ∷ []

abbrev last_packet : List ℕ
last_packet = 21 ∷ 22 ∷ 23 ∷ []

announces : (read_header first_packet).len ≡ 35
unfolding read_header le_value
announces = refl

receive_file-Holds_example :
    Holds
      (receive_file around first_packet ((full_packet ∷ []) ++ last_packet ∷ []) empty_temp)
      (drop header_size first_packet ++ (flatten (full_packet ∷ []) ++ last_packet))
unfolding flatten
receive_file-Holds_example =
    receive_file-Holds around empty_temp first_packet (full_packet ∷ []) last_packet (λ out. refl)
      (omega arith) (omega arith) (omega arith) (omega arith) (omega arith) (one_more refl no_more)
      (omega arith) (omega arith) announces (omega arith)
