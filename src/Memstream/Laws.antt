-- ===== src/Memstream/Laws.antt =====
-- The invariant of a memory stream.
use Prim.Native.Nat.{min}
use apue.Prelude.{
  ℕ, zero, suc, ◌+◌, ◌-◌, ◌^◌, ◌≤◌, ◌<◌, ◌≡◌, Bool, false, [], ◌∷◌, ◌++◌, Option, none, some, arith,
  length, length-append, length-take, length-drop, length-set, take, drop, set, ltb, leb, ◌||◌,
  if◌then◌else◌,
}
use apue.Prelude.Int.{ℤ, pos}
use apue.Text.{Bytes}
use apue.Memstream.{
  Stream, Flags, Return, ok, fail, out_of_bounds, open_with, type_to_flags, seek_set, min_size,
  sub_size, fmemopen, find_end, mstream_read, mstream_write, write_at, grow, terminate,
  mstream_seek, Whence, to_int, memcpy,
}

-- The virtual size lies in the real size, the position in the virtual size, and the caller owns the
-- real size, which an int holds.
pub record IsValid (ms : Stream) : Type 0 where
  pub size : ms.rsize < 2 ^ 31
  pub some_room : 0 < ms.rsize
  pub owned : ms.rsize ≤ length ms.buf
  pub within : ms.vsize ≤ ms.rsize
  pub at : ms.curpos ≤ ms.vsize

-- Neither out of bounds nor an invalid stream.
abbrev pub Safe : {A : Type 0} → Return A → Type 0
Safe (ok a ms) = IsValid ms
Safe (fail e) = Unit
Safe out_of_bounds = ⊥

find_end-le : (buf : Bytes) (len : ℕ) → find_end buf len ≤ len
unfolding find_end
find_end-le buf zero = omega arith
find_end-le [] (suc len) = omega arith
find_end-le (c ∷ buf) (suc len) = ground (arith, find_end-le buf len)

pub length-memcpy :
    (buf : Bytes) (off : ℕ) (s : Bytes)
    → off + length s ≤ length buf
    → length (memcpy buf off s) ≡ length buf
length-memcpy buf off s h = omega (
  arith,
  length-append (take off buf) (s ++ drop (off + length s) buf),
  length-append s (drop (off + length s) buf),
  length-take off buf,
  length-drop (off + length s) buf,
)

-- What malloc(size) and the caller give: at least `size` bytes.
abbrev pub Holds : ℕ → Option Bytes → Type 0
Holds size none = Unit
Holds size (some b) = size ≤ length b

open_with-Safe :
    (f : Flags) (buf : Option Bytes) (size : ℕ) (memory : Option Bytes)
    → 0 < size
    → size < 2 ^ 31
    → Holds size buf
    → Holds size memory
    → Safe (open_with f buf size memory)
unfolding open_with
open_with-Safe f none size none p h own given = ground arith
open_with-Safe f none size (some m) p h own given = ground arith
open_with-Safe f (some b) size memory p h own given = ground (arith, find_end-le b size)

-- fmemopen fails, or it gives a valid stream, if the caller and malloc give at least size bytes
-- and an int holds size.
pub fmemopen-Safe :
    (room opened : Bool) (buf : Option Bytes) (size : ℕ) (type : Bytes) (memory : Option Bytes)
    → size < 2 ^ 31
    → Holds size buf
    → Holds size memory
    → Safe (fmemopen room opened buf size type memory)
unfolding fmemopen
fmemopen-Safe room opened buf size type memory h own given =
    ground (arith, open_with-Safe (type_to_flags type) buf size memory)

-- mstream_read on a valid stream stays inside the buffer and fails or keeps the stream valid.
pub mstream_read-Safe : (len : ℕ) {ms : Stream} → IsValid ms → Safe (mstream_read len ms)
unfolding mstream_read
mstream_read-Safe len v = ground arith

terminate-Safe : (nw : ℕ) {ms : Stream} → IsValid ms → Safe (terminate nw ms)
unfolding terminate
terminate-Safe nw {ms} v =
    ground (arith, length-set ms.buf ms.curpos 0, length-set ms.buf (ms.rsize - 1) 0)

-- Here the position may have passed the virtual size.
grow-Safe :
    (nw : ℕ) (ms : Stream)
    → ms.rsize < 2 ^ 31
    → 0 < ms.rsize
    → ms.rsize ≤ length ms.buf
    → ms.vsize ≤ ms.rsize
    → ms.curpos ≤ ms.rsize
    → Safe (grow nw ms)
unfolding grow
grow-Safe nw ms a b c d e = ground (
  arith,
  length-set ms.buf ms.curpos 0,
  terminate-Safe nw {ms = ms},
  terminate-Safe nw {ms = record ms { vsize = ms.curpos }},
  terminate-Safe nw {ms = record ms { vsize = ms.curpos; buf = set ms.buf ms.curpos 0 }},
)

-- How many bytes a write at `off` takes: what fits.
pub fits :
    (n off : ℕ) (ms : Stream)
    → IsValid ms
    → off ≤ ms.rsize
    → min_size n (sub_size ms.rsize off) ≡ min n (ms.rsize - off)
fits n off ms v h = ground arith

write_at-Safe :
    (off : ℕ) (s : Bytes) (ms : Stream) → IsValid ms → off ≤ ms.vsize → Safe (write_at off s ms)
unfolding write_at
write_at-Safe off s ms v h =
    let nw = min (length s) (ms.rsize - off) in
    let m = record ms { buf = memcpy ms.buf off (take nw s); curpos = off + nw } in
    let short : length (take nw s) ≡ nw = omega (arith, length-take nw s) in
    let room : off + nw ≤ length ms.buf = omega (arith, v.owned, v.within) in
    let inside : ltb (length ms.buf) (off + nw) || leb (2 ^ 31) (off + nw) ≡ false =
      ground (arith, v.size, v.within) in
    let same : length m.buf ≡ length ms.buf = length-memcpy ms.buf off (take nw s) (omega arith) in
    rw (fits (length s) off ms v (omega (arith, v.within)), inside)
      (grow-Safe nw m v.size v.some_room (omega (arith, v.owned)) v.within
        (omega (arith, v.within)))

pub to_int_small : (p : ℕ) → p < 2 ^ 31 → to_int 0 (pos p) ≡ pos p
unfolding to_int
to_int_small p h = ground arith

-- On a valid stream whose size an int holds, mstream_write never writes outside the buffer, and it
-- fails or keeps the stream valid, in every mode.
pub mstream_write-Safe : (s : Bytes) {ms : Stream} → IsValid ms → Safe (mstream_write s ms)
unfolding mstream_write
mstream_write-Safe s {ms} v =
    rw
      (to_int_small (if ms.flags.append then ms.vsize else ms.curpos)
        (ground (arith, v.size, v.within, v.at)))
      (ground (arith, write_at-Safe ms.vsize s ms v, write_at-Safe ms.curpos s ms v))

-- mstream_seek keeps the stream valid, whatever the offset.
mstream_seek-Safe : (p : ℤ) (w : Whence) {ms : Stream} → IsValid ms → Safe (mstream_seek p w ms)
unfolding mstream_seek
mstream_seek-Safe p seek_set {ms} v = ground arith
mstream_seek-Safe p _ v = ground arith
