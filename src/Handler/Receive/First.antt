-- ===== src/Handler/Receive/First.antt =====
-- The reception of a whole file in src/mtp_cmd_handler.c: the first packet and those that follow it.
use mathlib.Core.List.{flatten}
use cmtp_responder.Base.{
  ℕ, ◌+◌, ◌-◌, ◌%◌, ◌^◌, ◌≤◌, ◌<◌, ◌≡◌, refl, ◌∙◌, ap, sym, inl, inr, Bool, false, some, List, [],
  ◌∷◌, ◌++◌, arith, ◌==◌, Bool-cases, length, take, drop, length-drop, ne-==, eq_of_==, ne_of_==,
}
use cmtp_responder.Base.Bytes.{blit, length-blit}
use cmtp_responder.Container.{header_size, read_header}
use cmtp_responder.Handler.{World}
use cmtp_responder.Handler.Receive.{Temp, write_out, close_file, append_to, first_of_file}
use cmtp_responder.Handler.Receive.Gather.{Gathers, take-blit}
use cmtp_responder.Base.Packets.{Full}
use cmtp_responder.Handler.Receive.Whole.{
  Holds, eq==, receive_packets, receive_packets-Holds, resumed_plain,
}

-- Whether the first packet of a file is all of it.
first_is_all :
    (len all : ℕ)
    → header_size ≤ len
    → len < 2 ^ 32
    → header_size ≤ all
    → all < 2 ^ 32
    → ((len + 2 ^ 32 - header_size) % 2 ^ 32 == (all + 2 ^ 32 - header_size) % 2 ^ 32)
      ≡ (len == all)
first_is_all len all a b c d = elim (Bool-cases (len == all)) [
  | inl e ↦ eq== _ _ (ap (λ n. (n + 2 ^ 32 - header_size) % 2 ^ 32) (eq_of_== len all e)) ∙ sym e
  | inr e ↦ ne-== _ _ (λ f. ne_of_== len all e (omega (arith, f, a, b, c, d))) ∙ sym e
]

first_of_file-whole :
    (w : World) (t : Temp) (bytes : List ℕ)
    → ((out : List ℕ) → w.file_write out ≡ out)
    → header_size ≤ length bytes
    → length bytes < 2 ^ 32
    → (read_header bytes).len ≡ length bytes
    → Holds (first_of_file w bytes t) (drop header_size bytes)
unfolding first_of_file Holds write_out close_file append_to
first_of_file-whole w t bytes whole header short e =
    let all =
      first_is_all (length bytes) (read_header bytes).len header short (omega (arith, e, header))
        (omega (arith, e, short))
      ∙ eq== _ _ (sym e) in
    rw all (refl, ap (λ l. some l) (whole (drop header_size bytes)), refl)

first_of_file-part :
    (w : World) (t : Temp) (bytes : List ℕ)
    → header_size ≤ length bytes
    → length bytes ≤ w.write_file_size
    → w.write_file_size < 2 ^ 31
    → w.write_file_size ≤ length t.temp_buff
    → length bytes < (read_header bytes).len
    → (read_header bytes).len < 2 ^ 32
    → ((first_of_file w bytes t).1 ≡ false)
      × Gathers w (first_of_file w bytes t).0 (drop header_size bytes)
      × ((first_of_file w bytes t).0.size_remaining ≡ length (drop header_size bytes))
      × ((first_of_file w bytes t).0.file_size + header_size ≡ (read_header bytes).len)
unfolding first_of_file
first_of_file-part w t bytes header small wide room long short =
    let body = drop header_size bytes in
    let size : length body ≡ length bytes - header_size = length-drop header_size bytes in
    let got : (length bytes + 2 ^ 32 - header_size) % 2 ^ 32 ≡ length body =
      omega (arith, size, header, small, wide) in
    let more =
      first_is_all (length bytes) (read_header bytes).len header (omega (arith, long, short))
        (omega (arith, header, long)) short
      ∙ ne-== _ _ (λ e. omega (arith, e, long)) in
    rw more (
      refl,
      record {
        file = [];
        open_file = refl;
        all =
            ap (λ n. take n (blit 0 body t.temp_buff)) (got ∙ sym (omega arith))
            ∙ take-blit 0 body t.temp_buff (omega (arith, size, small, room));
        fits = omega (arith, got, size, small);
        room = omega (arith, room, length-blit 0 body t.temp_buff);
      },
      got,
      omega (arith, header, long, short),
    )

-- A file: its first packet and those that follow.
pub receive_file : World → List ℕ → List (List ℕ) → Temp → Temp × Bool
receive_file w first rest t = receive_packets w rest (first_of_file w first t)

-- With a file system that writes all it is given, and a buffer that is as large as a write and no
-- smaller than a packet: where the header announces all the packets, all but the last of those that
-- follow the first are full, and the last is not empty, the file is complete
-- with the last packet; it is closed, and it holds the data of all packets in order, without the header.
pub receive_file-Holds :
    (w : World) (t : Temp) (first : List ℕ) (fulls : List (List ℕ)) (last : List ℕ)
    → ((out : List ℕ) → w.file_write out ≡ out)
    → w.read_usb_size ≤ w.write_file_size
    → w.write_file_size < 2 ^ 31
    → w.write_file_size ≤ length t.temp_buff
    → header_size ≤ length first
    → length first ≤ w.read_usb_size
    → Full w.read_usb_size fulls
    → 1 ≤ length last
    → length last ≤ w.read_usb_size
    → (read_header first).len ≡ length first + length (flatten fulls) + length last
    → length first + length (flatten fulls) + length last < 2 ^ 32
    → Holds
        (receive_file w first (fulls ++ last ∷ []) t)
        (drop header_size first ++ (flatten fulls ++ last))
unfolding receive_file
receive_file-Holds w t first fulls last whole small wide room header fits full some_last last_fits
      told few =
    let begun =
      first_of_file-part w t first header (omega (arith, fits, small)) wide room
        (omega (arith, told, some_last)) (omega (arith, told, few)) in
    let size : length (drop header_size first) ≡ length first - header_size =
      length-drop header_size first in
    rw (resumed_plain w (first_of_file w first t) (fulls ++ last ∷ []) begun.0) (
      receive_packets-Holds w (first_of_file w first t).0 (drop header_size first) fulls last whole
        small wide full some_last last_fits (omega (arith, size, few))
        (omega (arith, size, told, header, begun.3)) (omega (arith, begun.2, size, few)) begun.1)
