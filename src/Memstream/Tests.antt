-- ===== src/Memstream/Tests.antt =====
-- Memory streams at concrete buffers.
use apue.Prelude.{◌+◌, ◌≡◌, ◌^◌, refl, true, some, none, arith}
use apue.Prelude.Int.{pos}
use apue.Text.{codes}
use apue.Memstream.{
  Stream, ok, open_with, set_up, no_flags, type_char, type_loop, type_to_flags, find_end, fmemopen,
  mstream_read, mstream_write, mstream_seek, seek_set,
}
use apue.Memstream.Laws.{IsValid, Safe, fmemopen-Safe, mstream_read-Safe, mstream_write-Safe}
use apue.Memstream.RoundTrip.{read-write, seek_wraps}

-- Six bytes, opened with "r+".
abbrev six : Stream
six = set_up (codes "abcdef") 6 0 (record no_flags { read = true; write = true })

six-IsValid : IsValid six
six-IsValid = record {
  size = omega arith;
  some_room = omega arith;
  owned = omega arith;
  within = omega arith;
  at = omega arith;
}

opens : fmemopen true true (some (codes "abcdef")) 6 (codes "r+") none ≡ ok tt six
unfolding fmemopen open_with type_to_flags type_loop type_char find_end
opens = refl

fmemopen-Safe_example : Safe (fmemopen true true (some (codes "abcdef")) 6 (codes "a") none)
fmemopen-Safe_example =
    fmemopen-Safe true true (some (codes "abcdef")) 6 (codes "a") none (omega arith) (omega arith)
      tt

mstream_read-Safe_example : Safe (mstream_read 9 six)
mstream_read-Safe_example = mstream_read-Safe 9 {ms = six} six-IsValid

mstream_write-Safe_example : Safe (mstream_write (codes "too long") six)
mstream_write-Safe_example = mstream_write-Safe (codes "too long") {ms = six} six-IsValid

read-write_example :
    (m1 m2 : Stream) × (mstream_write (codes "xy") six ≡ ok 2 m1)
    × (mstream_seek (pos 0) seek_set m1 ≡ ok 0 m2)
    × ((m3 : Stream) × (mstream_read 2 m2 ≡ ok (codes "xy") m3))
read-write_example =
    read-write (codes "xy") six six-IsValid (omega arith) (omega arith) refl refl refl

seek_wraps_example : mstream_seek (pos (2 ^ 32 + 3)) seek_set six ≡ ok 3 (record six { curpos = 3 })
seek_wraps_example = seek_wraps 3 six (omega arith) (omega arith)
