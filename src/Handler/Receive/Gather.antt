-- ===== src/Handler/Receive/Gather.antt =====
-- The temporary file of src/mtp_cmd_handler.c: what is gathered from the packets.
use cmtp_responder.Base.{
  ℕ, zero, suc, ◌+◌, ◌%◌, ◌^◌, ◌≤◌, ◌<◌, ◌≡◌, refl, ◌∙◌, ap, sym, inl, inr, Bool, true, false, ◌||◌,
  none, some, List, [], ◌∷◌, ◌++◌, append-nil, append_assoc, arith, ltb, ltb-false, ◌==◌,
  Bool-cases, length, take, length-append,
}
use native.Mathlib.Numerals.{unary_clauses}
use cmtp_responder.Base.Bytes.{blit, length-blit}
use cmtp_responder.Handler.{World}
use cmtp_responder.Handler.Receive.{
  append_to, Temp, write_out, close_file, flush, next_packet, make_room, fill, count_packet,
  is_complete,
}

-- The data so far are in the file and in the buffer, which is no shorter than a write.
pub record Gathers (w : World) (t : Temp) (bytes : List ℕ) : Type 0 where
  pub file : List ℕ
  pub open_file : t.fhandle ≡ some file
  pub all : file ++ take t.data_size t.temp_buff ≡ bytes
  pub fits : t.data_size ≤ w.write_file_size
  pub room : w.write_file_size ≤ length t.temp_buff

-- A block written behind a prefix.
pub take-blit :
    (n : ℕ) (src dst : List ℕ)
    → n + length src ≤ length dst
    → take (n + length src) (blit n src dst) ≡ take n dst ++ src
unfolding blit
take-blit zero [] dst few = refl
take-blit zero (b ∷ bs) [] few = absurd (omega arith)
take-blit zero (b ∷ bs) (d ∷ dst) few =
    simp unary_clauses (ap (λ l. b ∷ l) (take-blit zero bs dst (omega arith)))
take-blit (suc n) src [] few = absurd (omega arith)
take-blit (suc n) src (d ∷ dst) few =
    let shift : suc n + length src ≡ suc (n + length src) = omega arith in
    ap (λ k. take k (d ∷ blit n src dst)) shift
    ∙ ap (λ l. d ∷ l) (take-blit n src dst (omega arith))

flushed :
    (w : World) (t : Temp) (bytes : List ℕ)
    → ((out : List ℕ) → w.file_write out ≡ out)
    → Gathers w t bytes
    → Gathers w (flush w t) bytes
unfolding flush write_out append_to
flushed w t bytes whole g = record {
  file = g.file ++ take t.data_size t.temp_buff;
  open_file =
      ap (append_to (w.file_write (take t.data_size t.temp_buff))) g.open_file
      ∙ ap (λ out. some (g.file ++ out)) (whole (take t.data_size t.temp_buff));
  all = append-nil (g.file ++ take t.data_size t.temp_buff) ∙ g.all;
  fits = omega arith;
  room = g.room;
}

-- Behind `make_room` there is room.
made :
    (w : World) (len : ℕ) (t : Temp) (bytes : List ℕ)
    → ((out : List ℕ) → w.file_write out ≡ out)
    → len ≤ w.write_file_size
    → w.write_file_size < 2 ^ 31
    → Gathers w t bytes
    → Gathers w (make_room w len t) bytes
      × ((make_room w len t).data_size + len ≤ w.write_file_size)
unfolding make_room
made w len t bytes whole small wide g =
    elim (Bool-cases (ltb w.write_file_size ((t.data_size + len) % 2 ^ 32))) [
      | inl over ↦ rw over (flushed w t bytes whole g, omega arith)
      | inr fits ↦ rw fits (g, omega (arith, g.fits, ltb-false _ _ fits))
    ]

filled :
    (w : World) (t : Temp) (bytes packet : List ℕ)
    → w.write_file_size < 2 ^ 31
    → t.data_size + length packet ≤ w.write_file_size
    → Gathers w t bytes
    → Gathers w (fill packet t) (bytes ++ packet)
unfolding fill
filled w t bytes packet wide fits g =
    let same : (t.data_size + length packet) % 2 ^ 32 ≡ t.data_size + length packet =
      omega (arith, fits, wide) in
    record {
      file = g.file;
      open_file = g.open_file;
      all =
          ap (λ n. g.file ++ take n (blit t.data_size packet t.temp_buff)) same
          ∙ ap (λ l. g.file ++ l)
              (take-blit t.data_size packet t.temp_buff (omega (arith, fits, g.room)))
          ∙ sym (append_assoc g.file (take t.data_size t.temp_buff) packet)
          ∙ ap (λ l. l ++ packet) g.all;
      fits = omega (arith, same, fits);
      room = omega (arith, g.room, length-blit t.data_size packet t.temp_buff);
    }

-- A complete file is closed and holds the bytes; before, they are in the file and the buffer.
unfoldable pub Gathered : World → Temp × Bool → List ℕ → Type 0
Gathered w (t, false) bytes = Gathers w t bytes
Gathered w (t, true) bytes = (t.stored ≡ some bytes) × (t.fhandle ≡ none) × (t.data_size ≡ 0)

-- Making room changes no count.
pub made_counts :
    (w : World) (len : ℕ) (t : Temp)
    → ((make_room w len t).size_remaining ≡ t.size_remaining)
      × ((make_room w len t).file_size ≡ t.file_size)
unfolding make_room flush write_out
made_counts w len t = elim (Bool-cases (ltb w.write_file_size ((t.data_size + len) % 2 ^ 32))) [
  | inl over ↦ rw over (refl, refl)
  | inr fits ↦ rw fits (refl, refl)
]

-- A complete file is closed.
closed :
    (w : World) (t : Temp) (bytes : List ℕ)
    → ((out : List ℕ) → w.file_write out ≡ out)
    → Gathers w t bytes
    → Gathered w (close_file (flush w t), true) bytes
unfolding Gathered close_file flush
closed w t bytes whole g =
    let done = flushed w t bytes whole g in
    (done.open_file ∙ ap (λ l. some l) (sym (append-nil done.file) ∙ done.all), refl, refl)

-- To count a packet changes neither the file nor the buffer.
counting :
    {w : World} {t : Temp} {bytes : List ℕ} (len : ℕ)
    → Gathers w t bytes
    → Gathers w (count_packet len t) bytes
unfolding count_packet
counting len g = record {
  file = g.file;
  open_file = g.open_file;
  all = g.all;
  fits = g.fits;
  room = g.room;
}

-- The count of the bytes, after a packet is counted.
counts :
    (w : World) (t : Temp) (bytes packet : List ℕ)
    → t.size_remaining ≡ length bytes % 2 ^ 32
    → (make_room w (length packet) (count_packet (length packet) t)).size_remaining
      ≡ length (bytes ++ packet) % 2 ^ 32
unfolding count_packet
counts w t bytes packet count =
    (made_counts w (length packet) (count_packet (length packet) t)).0
    ∙ omega (arith, count, length-append bytes packet)

completes :
    (w : World) (t : Temp) (bytes packet : List ℕ)
    → t.size_remaining ≡ length bytes % 2 ^ 32
    → is_complete w
        (length packet)
        (fill packet (make_room w (length packet) (count_packet (length packet) t)))
      ≡ ltb (length packet) w.read_usb_size || length (bytes ++ packet) % 2 ^ 32 == t.file_size
unfolding is_complete fill count_packet
completes w t bytes packet count =
    rw (counts w t bytes packet count)
      (rw (made_counts w (length packet) (count_packet (length packet) t)).1 refl)

-- With a file system that writes all it is given, and a packet no longer than the buffer: the file and
-- the buffer hold the bytes that came before and the packet, wherever the buffer was flushed; and the
-- file is complete, closed and has exactly these bytes, if and only if the packet is short or the bytes
-- are as many as announced.
pub next_packet-Gathered :
    (w : World) (t : Temp) (bytes packet : List ℕ)
    → ((out : List ℕ) → w.file_write out ≡ out)
    → length packet ≤ w.write_file_size
    → w.write_file_size < 2 ^ 31
    → t.size_remaining ≡ length bytes % 2 ^ 32
    → Gathers w t bytes
    → Gathered w (next_packet w packet t) (bytes ++ packet)
      × ((next_packet w packet t).0.size_remaining ≡ length (bytes ++ packet) % 2 ^ 32)
      × ((next_packet w packet t).1
          ≡ ltb (length packet) w.read_usb_size
            || (length (bytes ++ packet) % 2 ^ 32 == t.file_size))
unfolding next_packet Gathered
next_packet-Gathered w t bytes packet whole small wide count g =
    let now = count_packet (length packet) t in
    let room = made w (length packet) now bytes whole small wide (counting (length packet) g) in
    let full = filled w (make_room w (length packet) now) bytes packet wide room.1 room.0 in
    elim (Bool-cases
      (is_complete w (length packet) (fill packet (make_room w (length packet) now)))) [
        | inl all ↦ rw all (
          closed w _ (bytes ++ packet) whole full,
          counts w t bytes packet count,
          sym all ∙ completes w t bytes packet count,
        )
        | inr more ↦
            rw more
              (full, counts w t bytes packet count, sym more ∙ completes w t bytes packet count)
      ]
