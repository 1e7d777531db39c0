-- ===== src/Memstream/RoundTrip.antt =====
-- mstream_write, mstream_seek and mstream_read one after the other.
use Prim.Native.Nat.{min}
use apue.Prelude.{
  ℕ, zero, suc, ◌+◌, ◌-◌, ◌^◌, ◌≤◌, ◌<◌, ◌≡◌, refl, sym, ap, ◌∙◌, true, false, List, [], ◌∷◌, ◌++◌,
  arith, length, length-take, length-set, take, drop, set, ltb, leb, ◌&&◌, ◌||◌, Bool-cases, inl,
  inr,
}
use apue.Prelude.Int.{pos}
use apue.Text.{Bytes}
use apue.File.Laws.{take-append, take_all, drop-append_ge, drop-take}
use apue.Memstream.{
  Stream, Flags, ok, mstream_read, mstream_write, write_at, grow, terminate, mstream_seek, seek_set,
  to_int, memcpy, min_size, sub_size,
}
use apue.Memstream.Laws.{IsValid, to_int_small, fits, length-memcpy}

module _ {ℓ} {A : Type ℓ} where
  take-set : (n : ℕ) (xs : List A) (v : A) → take n (set xs n v) ≡ take n xs
  take-set zero xs v = refl
  take-set (suc n) [] v = refl
  take-set (suc n) (x ∷ xs) v = ap (λ l. x ∷ l) (take-set n xs v)

  -- The window of `n` elements at `p` ends where the write is.
  window-set :
      (p n : ℕ) (xs : List A) (v : A) → take n (drop p (set xs (p + n) v)) ≡ take n (drop p xs)
  window-set p n xs v =
      let e : n ≡ p + n - p = omega arith in
      ap (λ k. take k (drop p (set xs (p + n) v))) e
      ∙ sym (drop-take p (p + n) (set xs (p + n) v))
      ∙ ap (drop p) (take-set (p + n) xs v)
      ∙ drop-take p (p + n) xs
      ∙ ap (λ k. take k (drop p xs)) (sym e)

window-memcpy :
    (buf : Bytes) (p : ℕ) (s : Bytes)
    → p ≤ length buf
    → take (length s) (drop p (memcpy buf p s)) ≡ s
window-memcpy buf p s h =
    let front : length (take p buf) ≡ p = omega (arith, length-take p buf) in
    ap (take (length s)) (
      drop-append_ge p (take p buf) (s ++ drop (p + length s) buf) (omega arith)
      ∙ ap (λ k. drop k (s ++ drop (p + length s) buf))
          (let e : p - length (take p buf) ≡ 0 = omega arith in e))
    ∙ take-append (length s) s _ (omega arith)
    ∙ take_all (length s) s (omega arith)

-- The stream after a write of all of `s` at its position, in a mode that reads and writes.
record Wrote (s : Bytes) (ms ms' : Stream) : Type 0 where
  window : take (length s) (drop ms.curpos ms'.buf) ≡ s
  size : length ms'.buf ≡ length ms.buf
  vsize : ms.curpos + length s ≤ ms'.vsize
  small : ms'.vsize ≤ ms.rsize
  flags : ms'.flags ≡ ms.flags
  moved : ms'.curpos ≡ ms.curpos + length s

terminate-read : (nw : ℕ) (ms : Stream) → ms.flags.read ≡ true → terminate nw ms ≡ ok nw ms
unfolding terminate
terminate-read nw ms r = ground arith

write_at_position :
    (s : Bytes) (ms : Stream)
    → ms.flags.write ≡ true
    → ms.flags.append ≡ false
    → ms.curpos < 2 ^ 31
    → mstream_write s ms ≡ write_at ms.curpos s ms
unfolding mstream_write
write_at_position s ms w a h = ground (arith, to_int_small ms.curpos h)

module _ (s : Bytes) (ms : Stream) (v : IsValid ms) (room : ms.curpos + length s ≤ ms.rsize) where
  abbrev copied : Stream
  copied = record ms { buf = memcpy ms.buf ms.curpos s; curpos = ms.curpos + length s }

  write_at-grow : write_at ms.curpos s ms ≡ grow (length s) copied
  unfolding write_at
  write_at-grow =
      let all : min (length s) (ms.rsize - ms.curpos) ≡ length s = omega arith in
      let inside : ltb (length ms.buf) (ms.curpos + length s) || leb (2 ^ 31) (ms.curpos + length s)
          ≡ false =
        ground (arith, v.owned, v.size) in
      rw (
        fits (length s) ms.curpos ms v (omega arith),
        all,
        inside,
        take_all (length s) s (omega arith),
      )

  same_length : length copied.buf ≡ length ms.buf
  same_length = length-memcpy ms.buf ms.curpos s (omega (arith, v.owned))

  same_window : take (length s) (drop ms.curpos copied.buf) ≡ s
  same_window = window-memcpy ms.buf ms.curpos s (omega (arith, v.owned))

  module _ (r : ms.flags.read ≡ true) (w : ms.flags.write ≡ true) where
    abbrev Grown : Type 0
    Grown = (ms' : Stream) × (grow (length s) copied ≡ ok (length s) ms') × Wrote s ms ms'

    both : (ms.flags.read && ms.flags.write) ≡ true
    both = ground arith

    -- The stream did not grow.
    grow_within : ltb ms.vsize (ms.curpos + length s) ≡ false → Grown
    unfolding grow
    grow_within old = (
      copied,
      rw old (terminate-read (length s) copied r),
      record {
        window = same_window;
        size = same_length;
        vsize = ground arith;
        small = v.within;
        flags = refl;
        moved = refl;
      },
    )

    -- It grew to the end of the buffer.
    grow_full :
        ltb ms.vsize (ms.curpos + length s) ≡ true
        → ltb (ms.curpos + length s) ms.rsize ≡ false
        → Grown
    unfolding grow
    grow_full new full = (
      record copied { vsize = ms.curpos + length s },
      rw (new, both, full)
          (terminate-read (length s) (record copied { vsize = ms.curpos + length s }) r),
      record {
        window = same_window;
        size = same_length;
        vsize = omega arith;
        small = room;
        flags = refl;
        moved = refl;
      },
    )

    -- It grew, and a NUL was put behind it.
    grow_more :
        ltb ms.vsize (ms.curpos + length s) ≡ true
        → ltb (ms.curpos + length s) ms.rsize ≡ true
        → Grown
    unfolding grow
    grow_more new more =
        let b = set copied.buf (ms.curpos + length s) 0 in
        let m = record copied { vsize = ms.curpos + length s; buf = b } in
        let inside : ltb (ms.curpos + length s) (length copied.buf) ≡ true =
          ground (arith, same_length, v.owned) in
        (
          m,
          rw (new, both, more, inside) (terminate-read (length s) m r),
          record {
            window = window-set ms.curpos (length s) copied.buf 0 ∙ same_window;
            size = length-set copied.buf (ms.curpos + length s) 0 ∙ same_length;
            vsize = omega arith;
            small = room;
            flags = refl;
            moved = refl;
          },
        )

    grow-Wrote : Grown
    grow-Wrote = elim (Bool-cases (ltb ms.vsize (ms.curpos + length s))) [
      | inl new ↦ elim (Bool-cases (ltb (ms.curpos + length s) ms.rsize)) [
        | inl more ↦ grow_more new more
        | inr full ↦ grow_full new full
      ]
      | inr old ↦ grow_within old
    ]

    write-Wrote :
        ms.flags.append ≡ false
        → (ms' : Stream) × (mstream_write s ms ≡ ok (length s) ms') × Wrote s ms ms'
    write-Wrote a =
        let (m, e, p) = grow-Wrote in
        (m, write_at_position s ms w a (omega (arith, v.size)) ∙ write_at-grow ∙ e, p)

to_int_wraps : (p : ℕ) → p < 2 ^ 31 → to_int 0 (pos (2 ^ 32 + p)) ≡ pos p
unfolding to_int
to_int_wraps p h = ground arith

-- A seek from the start to an offset in the stream, where an int holds it.
seek_within :
    (p : ℕ) (ms : Stream)
    → p ≤ ms.vsize
    → p < 2 ^ 31
    → mstream_seek (pos p) seek_set ms ≡ ok p (record ms { curpos = p })
unfolding mstream_seek
seek_within p ms h small =
    let q : ltb ms.vsize p ≡ false = ground arith in rw (to_int_small p small, mstream_seek) (rw q)

read_window :
    (n : ℕ) (ms : Stream)
    → 0 < n
    → ms.flags.read ≡ true
    → ms.vsize < 2 ^ 31
    → ms.curpos + n ≤ ms.vsize
    → ms.vsize ≤ length ms.buf
    → mstream_read n ms ≡ ok (take n (drop ms.curpos ms.buf)) (record ms { curpos = ms.curpos + n })
unfolding mstream_read
read_window n ms p r small h k =
    let e : min_size n (sub_size ms.vsize ms.curpos) ≡ n = ground arith in
    let q : leb ms.vsize ms.curpos ≡ false = ground arith in
    let z : ltb (length ms.buf) (ms.curpos + n) ≡ false = ground arith in rw (e, r, q, z)

-- On a valid stream opened for reading and writing and not for appending, text of at least one
-- byte that fits behind the position is taken whole by mstream_write, mstream_seek goes back to
-- where the position was, and mstream_read then gives the text.
pub read-write :
    (s : Bytes) (ms : Stream)
    → IsValid ms
    → 0 < length s
    → ms.curpos + length s ≤ ms.rsize
    → ms.flags.read ≡ true
    → ms.flags.write ≡ true
    → ms.flags.append ≡ false
    → (m1 m2 : Stream) × (mstream_write s ms ≡ ok (length s) m1)
      × (mstream_seek (pos ms.curpos) seek_set m1 ≡ ok ms.curpos m2)
      × ((m3 : Stream) × (mstream_read (length s) m2 ≡ ok s m3))
read-write s ms v full room r w a =
    let (m1, e, p) = write-Wrote s ms v room r w a in
    let m2 = record m1 { curpos = ms.curpos } in
    (
      m1,
      m2,
      e,
      seek_within ms.curpos m1 (omega (arith, p.vsize)) (omega (arith, v.size)),
      (
        record m2 { curpos = ms.curpos + length s },
        read_window (length s) m2 full (ap (λ (f : Flags). f.read) p.flags ∙ r)
              (omega (arith, p.small, v.size)) p.vsize (omega (arith, p.small, p.size, v.owned))
            ∙ ap (λ t. ok t (record m2 { curpos = ms.curpos + length s })) p.window,
      ),
    )

-- An offset of 2^32 + p from the start is cut to an int: mstream_seek takes it for p and reports
-- success, for every p below 2^31 in the stream.
pub seek_wraps :
    (p : ℕ) (ms : Stream)
    → p ≤ ms.vsize
    → p < 2 ^ 31
    → mstream_seek (pos (2 ^ 32 + p)) seek_set ms ≡ ok p (record ms { curpos = p })
unfolding mstream_seek
seek_wraps p ms h small =
    let q : ltb ms.vsize p ≡ false = ground arith in rw (to_int_wraps p small, mstream_seek) (rw q)
