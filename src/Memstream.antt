-- ===== src/Memstream.antt =====
-- apue.3e/exercises/fmemopen.c: a stream over a buffer in memory, with the callbacks that stdio
-- calls. The stream and the buffer are one record; a call returns its int beside the new stream.
pub mod Laws
pub mod RoundTrip
pub mod Tests
use apue.Prelude.{
  ℕ, zero, suc, ◌+◌, ◌-◌, ◌%◌, ◌^◌, Bool, true, false, not, ◌&&◌, ◌||◌, List, [], ◌∷◌, ◌++◌, Option,
  none, some, ltb, leb, ◌==◌, if◌then◌else◌, length, take, drop, set, replicate, get_or,
}
use apue.Prelude.Int.{ℤ, pos, negsuc, int_of}
use apue.Text.{Bytes}

-- The bits of `flags`.
pub record Flags : Type 0 where
  pub read : Bool
  pub write : Bool
  pub append : Bool
  pub truncate : Bool
  pub mybuf : Bool

abbrev pub no_flags : Flags
no_flags = record { read = false; write = false; append = false; truncate = false; mybuf = false }

-- flags == 0
abbrev pub is_zero : Flags → Bool
is_zero f = not (f.read || (f.write || (f.append || (f.truncate || f.mybuf))))

-- `struct memstream`; `buf` is the memory from `buf` on, as far as the caller owns it.
pub record Stream : Type 0 where
  pub buf : Bytes
  pub rsize : ℕ
  pub vsize : ℕ
  pub curpos : ℕ
  pub flags : Flags

pub data Errno : Type 0 where
  einval enomem ebadf from_funopen : Errno

-- What a callback returns: its value, -1 with errno, or an access outside the buffer or an int that
-- overflows, which C leaves undefined.
pub data Return (A : Type 0) : Type 0 where
  ok : A → Stream → Return A
  fail : Errno → Return A
  out_of_bounds : Return A

-- One character of the mode, and what `type_to_flags` makes of it; `none` is `return(0)`.
unfoldable pub type_char : ℕ → Flags → Option Flags
type_char c f =
    if c == b'r'
    then (if is_zero f then some (record f { read = true }) else none)
    else if c == b'w'
    then (if is_zero f then some (record f { write = true; truncate = true }) else none)
    else if c == b'a'
    then (if is_zero f then some (record f { append = true }) else none)
    else if c == b'+'
    then (if is_zero f then none else some (record f { read = true; write = true }))
    else if c == b'b'
    then (if is_zero f then none else some f)
    else none

unfoldable pub type_loop : Bytes → Flags → Flags
unfolding type_char
type_loop [] f = f
type_loop (c ∷ s) f = elim (type_char c f) [ none ↦ no_flags | some g ↦ type_loop s g ]

unfoldable pub type_to_flags : Bytes → Flags
unfolding type_loop
type_to_flags type = type_loop type no_flags

-- The offset of the first NUL of the first `len` bytes, or `len`.
unfoldable pub find_end : Bytes → ℕ → ℕ
find_end buf zero = 0
find_end [] (suc len) = 0
find_end (c ∷ buf) (suc len) = let more = suc (find_end buf len) in if c == 0 then 0 else more

-- The stream that fmemopen sets up once its buffer is there.
abbrev pub set_up : Bytes → ℕ → ℕ → Flags → Stream
set_up buf size curpos f = record {
  buf = buf;
  rsize = size;
  curpos = curpos;
  flags = f;
  vsize = if f.append then curpos else if f.truncate then 0 else size;
}

-- The rest of fmemopen once the mode is read. `buf` is none for NULL; `memory` are the bytes that
-- malloc(size) gives, none where it fails.
unfoldable pub open_with : Flags → Option Bytes → ℕ → Option Bytes → Return (Unit {0})
open_with f none size memory =
    if is_zero f
    then fail einval
    else if not (f.read && f.write)
    then fail einval
    else elim memory [
      | none ↦ fail enomem
      | some m ↦ ok tt (set_up m size 0 (record f { mybuf = true }))
    ]
open_with f (some b) size memory =
    if is_zero f
    then fail einval
    else ok tt (set_up b size (if f.append then find_end b size else 0) f)

-- `room` is whether malloc gives a struct memstream, `opened` whether funopen gives a FILE.
unfoldable pub fmemopen : Bool → Bool → Option Bytes → ℕ → Bytes → Option Bytes → Return (Unit {0})
fmemopen room opened buf size type memory =
    if size == 0
    then fail einval
    else if not room
    then fail enomem
    else elim (open_with (type_to_flags type) buf size memory) [
      | ok u ms ↦ if opened then ok u ms else fail from_funopen
      | fail e ↦ fail e
      | out_of_bounds ↦ out_of_bounds
    ]

-- size_t subtraction.
abbrev pub sub_size : ℕ → ℕ → ℕ
sub_size a b = (2 ^ 64 + a - b) % 2 ^ 64

abbrev pub min_size : ℕ → ℕ → ℕ
min_size a b = if ltb a b then a else b

-- mstream_read(cookie, buf, len): the bytes that it copies; their number is what it returns.
unfoldable pub mstream_read : ℕ → Stream → Return Bytes
mstream_read len ms =
    let nr = min_size len (sub_size ms.vsize ms.curpos) in
    if not ms.flags.read
    then fail ebadf
    else if leb ms.vsize ms.curpos
    then ok [] ms
    else if ltb (length ms.buf) (ms.curpos + nr)
    then out_of_bounds
    else ok (take nr (drop ms.curpos ms.buf)) (record ms { curpos = ms.curpos + nr })

-- memcpy(buf + off, s, length s), where it fits.
abbrev pub memcpy : Bytes → ℕ → Bytes → Bytes
memcpy buf off s = take off buf ++ (s ++ drop (off + length s) buf)

-- (int)(base + p)
unfoldable pub to_int : ℕ → ℤ → ℤ
to_int base (pos n) = int_of ((base + n) % 2 ^ 32)
to_int base (negsuc n) = int_of ((base + (2 ^ 32 - 1 - n % 2 ^ 32)) % 2 ^ 32)

-- The end of mstream_write: the NUL of a stream that is only written.
unfoldable pub terminate : ℕ → Stream → Return ℕ
terminate nw ms =
    let i = if ltb ms.curpos ms.rsize then ms.curpos else ms.rsize - 1 in
    if (ms.flags.write || ms.flags.append) && not ms.flags.read
    then (if ltb i (length ms.buf)
        then ok nw (record ms { buf = set ms.buf i 0 })
        else out_of_bounds)
    else ok nw ms

-- The middle: a stream that grew, and that is read and written, ends in a NUL where there is room.
unfoldable pub grow : ℕ → Stream → Return ℕ
grow nw ms =
    if ltb ms.vsize ms.curpos
    then (let g = record ms { vsize = ms.curpos } in
        if (ms.flags.read && ms.flags.write) && ltb ms.curpos ms.rsize
        then (if ltb ms.curpos (length ms.buf)
            then terminate nw (record g { buf = set ms.buf ms.curpos 0 })
            else out_of_bounds)
        else terminate nw g)
    else terminate nw ms

-- The memcpy of mstream_write at `off`, and what follows.
unfoldable pub write_at : ℕ → Bytes → Stream → Return ℕ
write_at off s ms =
    let nw = min_size (length s) (sub_size ms.rsize off) in
    if ltb (length ms.buf) (off + nw) || leb (2 ^ 31) (off + nw)
    then out_of_bounds
    else grow nw (record ms { buf = memcpy ms.buf off (take nw s); curpos = off + nw })

-- mstream_write(cookie, s, length s): the number of bytes that it takes.
unfoldable pub mstream_write : Bytes → Stream → Return ℕ
mstream_write s ms =
    if not (ms.flags.append || ms.flags.write)
    then fail ebadf
    else elim (to_int 0 (pos (if ms.flags.append then ms.vsize else ms.curpos))) [
      | negsuc _ ↦ out_of_bounds
      | pos off ↦ write_at off s ms
    ]

pub data Whence : Type 0 where
  seek_set seek_end seek_cur : Whence

unfoldable pub mstream_seek : ℤ → Whence → Stream → Return ℕ
mstream_seek p whence ms =
    let base : ℕ = elim whence [ seek_set ↦ 0 | seek_end ↦ ms.vsize | seek_cur ↦ ms.curpos ] in
    elim (to_int base p) [
      | negsuc _ ↦ fail einval
      | pos off ↦ if ltb ms.vsize off then fail einval else ok off (record ms { curpos = off })
    ]
