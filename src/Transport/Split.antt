-- ===== src/Transport/Split.antt =====
-- `_transport_send_pkt_to_tx_mq` and `_transport_send_bulk_pkt_to_tx_mq` of
-- src/transport/mtp_transport.c: how data are cut into packets.
use mathlib.Core.List.{flatten}
use cmtp_responder.Base.{
  ℕ, zero, suc, ◌+◌, ◌-◌, ◌≤◌, ◌<◌, ◌≡◌, refl, ◌∙◌, ap, inl, inr, Bool, true, some, List, [], ◌∷◌,
  ◌++◌, arith, ltb, ltb→lt, ltb-false, if◌then◌else◌, Bool-cases, ne-==, length, take, drop,
  length-take, length-drop, take-append-drop, take-length, append_assoc,
}
use cmtp_responder.Base.Packets.{Full, no_more, one_more}
use cmtp_responder.Transport.{
  Msg, MsgType, data_packet, bulk_packet, send_loop, send_pkt_to_tx_mq, bulk_loop,
  send_bulk_pkt_to_tx_mq,
}

drop_all : (xs : List ℕ) → drop (length xs) xs ≡ []
drop_all [] = refl
drop_all (x ∷ xs) = drop_all xs

-- The messages with these packets, the first of them posted first.
pub post_all : MsgType → List (List ℕ) → List Msg → List Msg
post_all t [] queue = queue
post_all t (p ∷ ps) queue = post_all t ps (record { mtype = t; buffer = p } ∷ queue)

-- A split of the data into full packets and a last one that has some bytes and no more than a packet.
pub record IsSplit (tx_size : ℕ) (buf : List ℕ) (fulls : List (List ℕ)) (last : List ℕ)
    : Type 0 where
  pub full : Full tx_size fulls
  pub some_last : 1 ≤ length last
  pub fits : length last ≤ tx_size
  pub whole : flatten fulls ++ last ≡ buf

IsSplit-one :
    (tx_size : ℕ) (buf : List ℕ)
    → 1 ≤ length buf
    → length buf ≤ tx_size
    → IsSplit tx_size buf [] buf
unfolding flatten
IsSplit-one tx_size buf some_last fits = record {
  full = no_more;
  some_last = some_last;
  fits = fits;
  whole = refl;
}

IsSplit-more :
    {tx_size : ℕ} (buf : List ℕ) {fulls : List (List ℕ)} {last : List ℕ}
    → tx_size ≤ length buf
    → IsSplit tx_size (drop tx_size buf) fulls last
    → IsSplit tx_size buf (take tx_size buf ∷ fulls) last
unfolding flatten
IsSplit-more {tx_size} buf {fulls} {last} long s = record {
  full = one_more (omega (arith, long, length-take tx_size buf)) s.full;
  some_last = s.some_last;
  fits = s.fits;
  whole =
      append_assoc (take tx_size buf) (flatten fulls) last
      ∙ ap (λ l. take tx_size buf ++ l) s.whole
      ∙ take-append-drop tx_size buf;
}

module _ (takes : List Msg → Bool) (granted : (queue : List Msg) → takes queue ≡ true) (tx_size : ℕ)
    (pos : 1 ≤ tx_size) where
  send_loop-end :
      (left : ℕ) (pkt_len : ℕ) (queue : List Msg)
      → 1 ≤ left
      → send_loop takes tx_size left [] pkt_len queue
        ≡ some (record { queue = queue; sent = pkt_len })
  unfolding send_loop
  send_loop-end zero pkt_len queue h = elim h [ ]
  send_loop-end (suc left) pkt_len queue h = refl

  send_loop-step :
      (left n : ℕ) (buf : List ℕ) (pkt_len : ℕ) (queue : List Msg)
      → 1 ≤ length buf
      → (if ltb (length buf) tx_size then length buf else tx_size) ≡ n
      → send_loop takes tx_size (suc left) buf pkt_len queue
        ≡ send_loop takes tx_size left
            (drop n buf)
            pkt_len
            (record { mtype = data_packet; buffer = take n buf } ∷ queue)
  unfolding send_loop
  send_loop-step left n buf pkt_len queue more e =
      rw (ne-== (length buf) 0 (λ z. omega (arith, z, more))) (rw (granted queue) (rw e refl))

  send_loop-IsSplit :
      (left : ℕ) (buf : List ℕ) (pkt_len : ℕ) (queue : List Msg)
      → 1 ≤ length buf
      → length buf < left
      → (fulls : List (List ℕ)) × (last : List ℕ) × IsSplit tx_size buf fulls last
        × (send_loop takes tx_size left buf pkt_len queue
            ≡ some (record {
              queue = post_all data_packet (fulls ++ last ∷ []) queue;
              sent = pkt_len;
            }))
  unfolding post_all
  send_loop-IsSplit zero buf pkt_len queue more fuel = absurd (omega arith)
  send_loop-IsSplit (suc left) buf pkt_len queue more fuel =
      elim (Bool-cases (ltb tx_size (length buf))) [
        | inr small ↦
            let fits = ltb-false tx_size (length buf) small in
            let all : (if ltb (length buf) tx_size then length buf else tx_size) ≡ length buf =
              ground (arith, fits) in
            (
              [],
              buf,
              IsSplit-one tx_size buf more fits,
              send_loop-step left (length buf) buf pkt_len queue more all
                  ∙ (λ i.
                      send_loop takes tx_size left (drop_all buf i) pkt_len
                        (record { mtype = data_packet; buffer = take-length buf i } ∷ queue))
                  ∙ send_loop-end left pkt_len _ (omega (arith, more, fuel)),
            )
        | inl large ↦
            let long : tx_size < length buf = ltb→lt tx_size (length buf) large in
            let part : (if ltb (length buf) tx_size then length buf else tx_size) ≡ tx_size =
              ground (arith, long) in
            let rest = drop tx_size buf in
            let size : length rest ≡ length buf - tx_size = length-drop tx_size buf in
            let (fulls, last, split, run) =
              send_loop-IsSplit left rest pkt_len
                (record { mtype = data_packet; buffer = take tx_size buf } ∷ queue)
                (omega (arith, size, long)) (omega (arith, size, long, fuel, pos)) in
            (
              take tx_size buf ∷ fulls,
              last,
              IsSplit-more buf (omega (arith, long)) split,
              send_loop-step left tx_size buf pkt_len queue more part ∙ run,
            )
      ]

  bulk_loop-IsSplit :
      (left : ℕ) (buf : List ℕ) (sent_len : ℕ) (queue : List Msg)
      → 1 ≤ length buf
      → length buf ≤ left
      → (fulls : List (List ℕ)) × (last : List ℕ) × IsSplit tx_size buf fulls last
        × (bulk_loop takes tx_size left buf sent_len queue
            ≡ some (record {
              queue = post_all bulk_packet (fulls ++ last ∷ []) queue;
              sent = sent_len + length buf;
            }))
  unfolding bulk_loop post_all
  bulk_loop-IsSplit zero buf sent_len queue more fuel = absurd (omega arith)
  bulk_loop-IsSplit (suc left) buf sent_len queue more fuel =
      elim (Bool-cases (ltb tx_size (length buf))) [
        | inr small ↦ (
          [],
          buf,
          IsSplit-one tx_size buf more (ltb-false tx_size (length buf) small),
          rw small (rw (granted queue) refl),
        )
        | inl large ↦
            let long : tx_size < length buf = ltb→lt tx_size (length buf) large in
            let rest = drop tx_size buf in
            let size : length rest ≡ length buf - tx_size = length-drop tx_size buf in
            let (fulls, last, split, run) =
              bulk_loop-IsSplit left rest (sent_len + tx_size)
                (record { mtype = bulk_packet; buffer = take tx_size buf } ∷ queue)
                (omega (arith, size, long)) (omega (arith, size, long, fuel, pos)) in
            let total : sent_len + tx_size + length rest ≡ sent_len + length buf =
              omega (arith, size, long) in
            (
              take tx_size buf ∷ fulls,
              last,
              IsSplit-more buf (omega (arith, long)) split,
              rw large (
                  rw (granted queue) (
                    run ∙ (λ i. some (record {
                      queue = post_all bulk_packet (take tx_size buf ∷ (fulls ++ last ∷ [])) queue;
                      sent = total i;
                    })))),
            )
      ]

  -- With a queue that takes every message, packets of at least a byte and some data, both functions post the data
  -- cut into full packets and a last one that is not empty, in order, and return the number of bytes.
  pub send_pkt_to_tx_mq-IsSplit :
      (buf : List ℕ) (queue : List Msg)
      → 1 ≤ length buf
      → ((fulls : List (List ℕ)) × (last : List ℕ) × IsSplit tx_size buf fulls last
          × (send_pkt_to_tx_mq takes tx_size (some buf) queue
              ≡ some (record {
                queue = post_all data_packet (fulls ++ last ∷ []) queue;
                sent = length buf;
              })))
        × ((fulls : List (List ℕ)) × (last : List ℕ) × IsSplit tx_size buf fulls last
            × (send_bulk_pkt_to_tx_mq takes tx_size (some buf) queue
                ≡ some (record {
                  queue = post_all bulk_packet (fulls ++ last ∷ []) queue;
                  sent = length buf;
                })))
  unfolding send_pkt_to_tx_mq send_bulk_pkt_to_tx_mq
  send_pkt_to_tx_mq-IsSplit buf queue more =
      let none_sent : 0 + length buf ≡ length buf = omega arith in
      let some_data = ne-== (length buf) 0 (λ z. omega (arith, z, more)) in
      let (fulls, last, split, run) =
        send_loop-IsSplit (length buf + 1) buf (length buf) queue more (omega arith) in
      let (fulls', last', split', run') =
        bulk_loop-IsSplit (length buf) buf 0 queue more (omega arith) in
      (
        (fulls, last, split, rw some_data run),
        (
          fulls',
          last',
          split',
          rw some_data (
              run' ∙ (λ i. some (record {
                queue = post_all bulk_packet (fulls' ++ last' ∷ []) queue;
                sent = none_sent i;
              }))),
        ),
      )
