-- ===== src/Handler/Receive/Whole.antt =====
-- The reception of the packets that follow the first of a file in src/mtp_cmd_handler.c.
use cmtp_responder.Base.{
  ℕ, ◌+◌, ◌%◌, ◌^◌, ◌≤◌, ◌<◌, ◌≡◌, refl, ◌∙◌, ap, sym, inl, inr, Bool, true, false, ◌||◌, none,
  some, List, [], ◌∷◌, ◌++◌, append_assoc, arith, ltb, ◌==◌, Bool-cases, length, length-append,
  ne-==,
}
use mathlib.Core.List.{flatten}
use cmtp_responder.Base.Packets.{Full, one_more}
use cmtp_responder.Handler.{World}
use cmtp_responder.Handler.Receive.{
  Temp, write_out, close_file, flush, next_packet, make_room, fill, count_packet, is_complete,
}
use cmtp_responder.Handler.Receive.Gather.{Gathers, Gathered, made_counts, next_packet-Gathered}

-- The packets that follow are taken until the file is complete.
pub receive_packets : World → List (List ℕ) → Temp × Bool → Temp × Bool
receive_packets w [] r = r
receive_packets w (p ∷ ps) (t, true) = (t, true)
receive_packets w (p ∷ ps) (t, false) = receive_packets w ps (next_packet w p t)

next_file_size :
    (w : World) (t : Temp) (packet : List ℕ) → (next_packet w packet t).0.file_size ≡ t.file_size
unfolding next_packet fill count_packet flush write_out close_file
next_file_size w t packet =
    let filled = fill packet (make_room w (length packet) (count_packet (length packet) t)) in
    let kept = (made_counts w (length packet) (count_packet (length packet) t)).1 in
    elim (Bool-cases (is_complete w (length packet) filled)) [
      | inl all ↦ rw all kept
      | inr more ↦ rw more kept
    ]

pub resumed_plain :
    (w : World) (r : Temp × Bool) (ps : List (List ℕ))
    → r.1 ≡ false
    → receive_packets w ps r ≡ receive_packets w ps (r.0, false)
resumed_plain w (t, false) ps e = refl
resumed_plain w (t, true) ps e = absurd (ground arith)

resumed :
    (w : World) (r : Temp × Bool) (bytes : List ℕ)
    → Gathered w r bytes
    → r.1 ≡ false
    → Gathers w r.0 bytes
unfolding Gathered
resumed w (t, false) bytes g e = g
resumed w (t, true) bytes g e = absurd (ground arith)

-- A complete file, closed.
unfoldable pub Holds : Temp × Bool → List ℕ → Type 0
Holds r bytes = (r.1 ≡ true) × (r.0.stored ≡ some bytes) × (r.0.fhandle ≡ none)

finished :
    (w : World) (r : Temp × Bool) (bytes : List ℕ) → Gathered w r bytes → r.1 ≡ true → Holds r bytes
unfolding Gathered Holds
finished w (t, true) bytes g e = (refl, g.0, g.1)
finished w (t, false) bytes g e = absurd (ground arith)

or_true : (a b : Bool) → b ≡ true → (a || b) ≡ true
or_true a b e = ground arith

or_false : (a b : Bool) → a ≡ false → b ≡ false → (a || b) ≡ false
or_false a b d e = ground arith

pub eq== : (a b : ℕ) → a ≡ b → (a == b) ≡ true
eq== a b e = ground arith

not_lt : (a b : ℕ) → b ≤ a → ltb a b ≡ false
not_lt a b e = ground arith

assoc3 : (a b c d : List ℕ) → (a ++ b) ++ (c ++ d) ≡ a ++ ((b ++ c) ++ d)
assoc3 a b c d = append_assoc a b (c ++ d) ∙ ap (λ l. a ++ l) (sym (append_assoc b c d))

-- The packets are full but for the last, which ends what the header announced.
pub receive_packets-Holds :
    (w : World) (t : Temp) (bytes : List ℕ) (fulls : List (List ℕ)) (last : List ℕ)
    → ((out : List ℕ) → w.file_write out ≡ out)
    → w.read_usb_size ≤ w.write_file_size
    → w.write_file_size < 2 ^ 31
    → Full w.read_usb_size fulls
    → 1 ≤ length last
    → length last ≤ w.read_usb_size
    → length bytes + length (flatten fulls) + length last < 2 ^ 32
    → t.file_size ≡ length bytes + length (flatten fulls) + length last
    → t.size_remaining ≡ length bytes % 2 ^ 32
    → Gathers w t bytes
    → Holds (receive_packets w (fulls ++ last ∷ []) (t, false)) (bytes ++ (flatten fulls ++ last))
unfolding flatten receive_packets
receive_packets-Holds w t bytes [] last whole small wide full some_last fits few size count g =
    let next =
      next_packet-Gathered w t bytes last whole (omega (arith, fits, small)) wide count g in
    let announced : length (bytes ++ last) % 2 ^ 32 ≡ t.file_size =
      omega (arith, size, few, length-append bytes last) in
    finished w (next_packet w last t) (bytes ++ last) next.0
      (next.2 ∙ or_true _ _ (eq== _ _ announced))
receive_packets-Holds w t bytes (p ∷ ps) last whole small wide (one_more is_full rest_full)
      some_last fits few size count g =
    let next =
      next_packet-Gathered w t bytes p whole (omega (arith, is_full, small)) wide count g in
    let no_short : ltb (length p) w.read_usb_size ≡ false =
      not_lt (length p) w.read_usb_size (omega (arith, is_full)) in
    let unfinished : (length (bytes ++ p) % 2 ^ 32 == t.file_size) ≡ false = ne-== _ _ (λ e.
      omega
        (arith, e, size, few, some_last, length-append bytes p, length-append p (flatten ps))) in
    let more = next.2 ∙ or_false _ _ no_short unfinished in
    let rest =
      receive_packets-Holds w (next_packet w p t).0 (bytes ++ p) ps last whole small wide rest_full
        some_last fits (omega (arith, few, length-append bytes p, length-append p (flatten ps)))
        (next_file_size w t p
          ∙ omega (arith, size, length-append bytes p, length-append p (flatten ps)))
        next.1 (resumed w (next_packet w p t) (bytes ++ p) next.0 more) in
    rw (resumed_plain w (next_packet w p t) (ps ++ last ∷ []) more)
      (rw (sym (assoc3 bytes p (flatten ps) last)) rest)
