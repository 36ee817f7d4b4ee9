-- ===== src/Base/Cursor.antt =====
-- A buffer that is filled from its start, as the packing functions do with a moving pointer.
use mathlib.Core.Path.{subst}
use cmtp_responder.Base.{
  ltb, not-ltb, ℕ, ◌+◌, ◌≤◌, ◌≡◌, refl, ◌∙◌, ap, sym, Bool, true, false, Option, none, some, List,
  [], ◌∷◌, ◌++◌, append_assoc, append-nil, arith, ◌==◌, if◌then◌else◌, length, length-append,
  length-take, length-drop, take, drop, drop-append, take-length, take-append_le, eq-==,
}
use cmtp_responder.Base.Bytes.{le_bytes, length-le_bytes, blit, blit-append, blit_zero}

-- The buffer, and how far the pointer is from its start.
pub record Cursor : Type 0 where
  pub buf : List ℕ
  pub at : ℕ

-- A write through the pointer, and whether the function goes on behind it.
abbrev pub Write : Type 0
Write = Cursor → Cursor × Bool

go_on : Write → Cursor × Bool → Cursor × Bool
go_on g (c, true) = g c
go_on g (c, false) = (c, false)

infixl 20 ◌▸◌
unfoldable pub ◌▸◌ : Write → Write → Write
unfolding go_on
f ▸ g = λ c. go_on g (f c)

unfoldable pub done : Write
done c = (c, true)

-- `memcpy(temp, src, n); temp += n;`
unfoldable pub put : ℕ → List ℕ → Write
put n src c = (record { buf = blit c.at (take n src) c.buf; at = c.at + n }, true)

-- `if (n != pack(temp, n)) return temp - buf; temp += n;`
packed : Cursor → ℕ → Option (List ℕ) × ℕ → Cursor × Bool
packed c n (none, m) = (c, false)
packed c n (some tail, m) =
    let written = record c { buf = take c.at c.buf ++ tail } in
    if n == m then (record written { at = c.at + n }, true) else (written, false)

unfoldable pub put_packed : (Option (List ℕ) → ℕ → Option (List ℕ) × ℕ) → ℕ → Write
unfolding packed
put_packed pack n c = packed c n (pack (some (drop c.at c.buf)) n)

-- `pack(temp, n); temp += n;`, whatever was packed. `none` is a call that does not come back, and
-- neither does its caller.
stepped : Cursor → ℕ → Option (Option (List ℕ) × ℕ) → Cursor × Bool
stepped c n none = (c, false)
stepped c n (some (none, m)) = (record c { at = c.at + n }, true)
stepped c n (some (some tail, m)) = (record { buf = take c.at c.buf ++ tail; at = c.at + n }, true)

unfoldable pub put_blindly : (Option (List ℕ) → ℕ → Option (Option (List ℕ) × ℕ)) → ℕ → Write
unfolding stepped
put_blindly pack n c = stepped c n (pack (some (drop c.at c.buf)) n)

-- `temp += pack(temp, n);`
returned : Cursor → Option (List ℕ) × ℕ → Cursor × Bool
returned c (none, m) = (record c { at = c.at + m }, true)
returned c (some tail, m) = (record { buf = take c.at c.buf ++ tail; at = c.at + m }, true)

unfoldable pub put_returned : (Option (List ℕ) → ℕ → Option (List ℕ) × ℕ) → ℕ → Write
unfolding returned
put_returned pack n c = returned c (pack (some (drop c.at c.buf)) n)

-- A packing function: nothing for a NULL buffer or one that is smaller than announced.
unfoldable pub pack_by : Write → (announced : ℕ) → Option (List ℕ) → ℕ → Option (List ℕ) × ℕ
pack_by f announced none size = (none, 0)
pack_by f announced (some buf) size =
    let c = (f (record { buf = buf; at = 0 })).0 in
    if ltb size announced then (some buf, 0) else (some c.buf, c.at)

-- A packing function of which each write goes on, if it comes back at all.
came : Cursor × Bool → Option (Option (List ℕ) × ℕ)
came (c, true) = some (some c.buf, c.at)
came (c, false) = none

unfoldable pub pack_if_back :
    Write → (announced : ℕ) → Option (List ℕ) → ℕ → Option (Option (List ℕ) × ℕ)
unfolding came
pack_if_back f announced none size = some (none, 0)
pack_if_back f announced (some buf) size =
    let back = came (f (record { buf = buf; at = 0 })) in
    if ltb size announced then some (some buf, 0) else back

-- The pointer stands behind `head`.
abbrev pub behind : List ℕ → List ℕ → Cursor
behind head rest = record { buf = head ++ rest; at = length head }

-- Wherever there is room, the write puts exactly these bytes, leaves the rest and goes on.
pub record Appends (f : Write) (bytes : List ℕ) : Type 0 where
  pub run :
      (head rest : List ℕ)
      → length bytes ≤ length rest
      → f (behind head rest) ≡ (behind (head ++ bytes) (drop (length bytes) rest), true)

drop_more :
    (xs ys rest : List ℕ) → drop (length ys) (drop (length xs) rest) ≡ drop (length (xs ++ ys)) rest
drop_more [] ys rest = refl
drop_more (x ∷ xs) [] [] = refl
drop_more (x ∷ xs) (y ∷ ys) [] = refl
drop_more (x ∷ xs) ys (r ∷ rest) = drop_more xs ys rest

moved :
    {h h' r r' : List ℕ}
    → h ≡ h'
    → r ≡ r'
    → ◌≡◌ {A = Cursor × Bool} (behind h r, true) (behind h' r', true)
moved p q = λ i. (behind (p i) (q i), true)

pub ▸-Appends :
    {f g : Write} {xs ys : List ℕ} → Appends f xs → Appends g ys → Appends (f ▸ g) (xs ++ ys)
unfolding ◌▸◌
▸-Appends {xs} {ys} p q = record {
  run = λ head rest room.
      let first = p.run head rest (omega (arith, length-append xs ys)) in
      let second =
        q.run (head ++ xs) (drop (length xs) rest)
          (omega (arith, length-append xs ys, length-drop (length xs) rest)) in
      rw first (second ∙ moved (append_assoc head xs ys) (drop_more xs ys rest));
}

pub done-Appends : Appends done []
unfolding done
done-Appends = record { run = λ head rest room. rw (append-nil head) refl }

pub put-Appends : (n : ℕ) (src : List ℕ) → n ≤ length src → Appends (put n src) (take n src)
unfolding put
put-Appends n src long = record {
  run = λ head rest room.
      let size : length (take n src) ≡ n = omega (arith, length-take n src) in
      let written : blit (length head) (take n src) (head ++ rest)
          ≡ (head ++ take n src) ++ drop (length (take n src)) rest =
        blit-append head (take n src) rest (length head) refl
        ∙ ap (λ l. head ++ l) (blit_zero (take n src) rest room)
        ∙ sym (append_assoc head (take n src) (drop (length (take n src)) rest)) in
      let moved_on : length head + n ≡ length (head ++ take n src) =
        omega (arith, size, length-append head (take n src)) in
      λ i. (record { buf = written i; at = moved_on i }, true);
}

-- What a packing function promises for some bytes: into a buffer with room for them it writes just
-- these.
abbrev pub Packs : (Option (List ℕ) → ℕ → Option (List ℕ) × ℕ) → List ℕ → Type 0
Packs pack bytes =
    (tail : List ℕ)
    → length bytes ≤ length tail
    → pack (some tail) (length bytes) ≡ (some (bytes ++ drop (length bytes) tail), length bytes)

replaced :
    (head rest bytes : List ℕ)
    → ◌≡◌ {A = Cursor × Bool}
        (
          record {
            buf = take (length head) (head ++ rest) ++ (bytes ++ drop (length bytes) rest);
            at = length head + length bytes;
          },
          true,
        )
        (behind (head ++ bytes) (drop (length bytes) rest), true)
replaced head rest bytes =
    let n = length bytes in
    let front : take (length head) (head ++ rest) ≡ head =
      take-append_le (length head) head rest (omega arith) ∙ take-length head in
    let kept : take (length head) (head ++ rest) ++ (bytes ++ drop n rest)
        ≡ (head ++ bytes) ++ drop n rest =
      ap (λ l. l ++ (bytes ++ drop n rest)) front ∙ sym (append_assoc head bytes (drop n rest)) in
    let size : length head + n ≡ length (head ++ bytes) = omega (arith, length-append head bytes) in
    λ i. (record { buf = kept i; at = size i }, true)

pub put_packed-Appends :
    (pack : Option (List ℕ) → ℕ → Option (List ℕ) × ℕ) (bytes : List ℕ)
    → Packs pack bytes
    → Appends (put_packed pack (length bytes)) bytes
unfolding put_packed packed
put_packed-Appends pack bytes law = record {
  run = λ head rest room.
      let same : (length bytes == length bytes) ≡ true = eq-== (length bytes) (length bytes) refl in
      rw (drop-append head rest) (rw (law rest room) (rw same (replaced head rest bytes)));
}

-- The promise of a packing function that comes back.
abbrev pub PacksBack : (Option (List ℕ) → ℕ → Option (Option (List ℕ) × ℕ)) → List ℕ → Type 0
PacksBack pack bytes =
    (tail : List ℕ)
    → length bytes ≤ length tail
    → pack (some tail) (length bytes)
      ≡ some (some (bytes ++ drop (length bytes) tail), length bytes)

pub put_blindly-Appends :
    (pack : Option (List ℕ) → ℕ → Option (Option (List ℕ) × ℕ)) (bytes : List ℕ)
    → PacksBack pack bytes
    → Appends (put_blindly pack (length bytes)) bytes
unfolding put_blindly stepped
put_blindly-Appends pack bytes law = record {
  run =
      λ head rest room. rw (drop-append head rest) (rw (law rest room) (replaced head rest bytes));
}

pub put_returned-Appends :
    (pack : Option (List ℕ) → ℕ → Option (List ℕ) × ℕ) (bytes : List ℕ)
    → Packs pack bytes
    → Appends (put_returned pack (length bytes)) bytes
unfolding put_returned returned
put_returned-Appends pack bytes law = record {
  run =
      λ head rest room. rw (drop-append head rest) (rw (law rest room) (replaced head rest bytes));
}

-- A buffer that is filled from its start.
from_start :
    {f : Write} {bytes : List ℕ} (buf : List ℕ)
    → Appends f bytes
    → length bytes ≤ length buf
    → f (record { buf = buf; at = 0 })
      ≡ (record { buf = bytes ++ drop (length bytes) buf; at = length bytes }, true)
from_start buf p room = p.run [] buf room

-- A packing function whose write puts as many bytes as are announced.
pub pack_by_lem :
    {f : Write} {bytes : List ℕ} (announced : ℕ) (buf : List ℕ) (size : ℕ)
    → Appends f bytes
    → announced ≡ length bytes
    → announced ≤ size
    → announced ≤ length buf
    → pack_by f announced (some buf) size ≡ (some (bytes ++ drop announced buf), announced)
unfolding pack_by
pack_by_lem announced buf size p exact enough room =
    let fits : ltb size announced ≡ false = not-ltb size announced enough in
    let run = from_start buf p (omega (arith, exact, room)) in rw fits (rw exact (rw run refl))

pub pack_by-Packs :
    {f : Write} {bytes : List ℕ} (announced : ℕ)
    → Appends f bytes
    → announced ≡ length bytes
    → Packs (pack_by f announced) bytes
pack_by-Packs {f} {bytes} announced p exact tail room =
    rw (sym exact)
      (pack_by_lem announced tail announced p exact (omega arith) (omega (arith, exact, room)))

pub Appends-eq : {f : Write} {xs ys : List ℕ} → Appends f xs → xs ≡ ys → Appends f ys
Appends-eq {f} a e = subst (λ l. Appends f l) e a

pub put_all : (n v : ℕ) → Appends (put n (le_bytes n v)) (le_bytes n v)
put_all n v =
    Appends-eq (put-Appends n (le_bytes n v) (omega (arith, length-le_bytes n v)))
      (ap (λ k. take k (le_bytes n v)) (sym (length-le_bytes n v)) ∙ take-length (le_bytes n v))

pub put_whole : (n : ℕ) (src : List ℕ) → n ≡ length src → Appends (put n src) src
put_whole n src e =
    Appends-eq (put-Appends n src (omega (arith, e))) (ap (λ k. take k src) e ∙ take-length src)

infixl 20 ◌▸▸◌
pub ◌▸▸◌ : {f g : Write} {xs ys : List ℕ} → Appends f xs → Appends g ys → Appends (f ▸ g) (xs ++ ys)
p ▸▸ q = ▸-Appends p q

pub pack_if_back_lem :
    {f : Write} {bytes : List ℕ} (announced : ℕ) (buf : List ℕ) (size : ℕ)
    → Appends f bytes
    → announced ≡ length bytes
    → announced ≤ size
    → announced ≤ length buf
    → pack_if_back f announced (some buf) size
      ≡ some (some (bytes ++ drop announced buf), announced)
unfolding pack_if_back came
pack_if_back_lem announced buf size p exact enough room =
    let fits : ltb size announced ≡ false = not-ltb size announced enough in
    let run = from_start buf p (omega (arith, exact, room)) in rw fits (rw exact (rw run refl))

pub pack_if_back-PacksBack :
    {f : Write} {bytes : List ℕ} (announced : ℕ)
    → Appends f bytes
    → announced ≡ length bytes
    → PacksBack (pack_if_back f announced) bytes
pack_if_back-PacksBack {f} {bytes} announced p exact tail room =
    rw (sym exact)
      (pack_if_back_lem announced tail announced p exact (omega arith) (omega (arith, exact, room)))
