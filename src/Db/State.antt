-- ===== src/Db/State.antt =====
-- The constants of db.c and apue_db.h, the DB structure with the two files behind it, and the
-- actions on them.
use apue.Prelude.{ℕ, ◌==◌, Bool, true, false, ◌&&◌, not, List, ◌∷◌, filter_list}
use apue.Prelude.Int.{ℤ}
use apue.Text.{Bytes}

abbrev pub idxlen_sz : ℕ
idxlen_sz = 4

abbrev pub sep : ℕ
sep = b':'

abbrev pub space : ℕ
space = 32

abbrev pub newline : ℕ
newline = 10

abbrev pub ptr_sz : ℕ
ptr_sz = 7

abbrev pub ptr_max : ℕ
ptr_max = 9999999

abbrev pub nhash_def : ℕ
nhash_def = 137

abbrev pub free_off : ℕ
free_off = 0

abbrev pub hash_off : ℕ
hash_off = ptr_sz

abbrev pub idxlen_min : ℕ
idxlen_min = 6

abbrev pub idxlen_max : ℕ
idxlen_max = 1024

abbrev pub datlen_min : ℕ
datlen_min = 2

abbrev pub datlen_max : ℕ
datlen_max = 1024

-- The flags of db_store; `other` is any number that is none of them.
pub data Flag : Type 0 where
  insert replace store other : Flag

-- The ten counters of the DB structure.
pub record Counts : Type 0 where
  pub delok : ℕ
  pub delerr : ℕ
  pub fetchok : ℕ
  pub fetcherr : ℕ
  pub nextrec : ℕ
  pub stor1 : ℕ
  pub stor2 : ℕ
  pub stor3 : ℕ
  pub stor4 : ℕ
  pub storerr : ℕ

abbrev pub no_counts : Counts
no_counts = record {
  delok = 0;
  delerr = 0;
  fetchok = 0;
  fetcherr = 0;
  nextrec = 0;
  stor1 = 0;
  stor2 = 0;
  stor3 = 0;
  stor4 = 0;
  storerr = 0;
}

pub data Which : Type 0 where
  idx_file dat_file : Which

pub data Kind : Type 0 where
  read_lock write_lock : Kind

-- A record lock that this process holds: `len` bytes from `off`, to the end of the file if 0.
pub record Lock : Type 0 where
  pub file : Which
  pub kind : Kind
  pub off : ℕ
  pub len : ℕ

abbrev pub same_file : Which → Which → Bool
same_file idx_file idx_file = true
same_file dat_file dat_file = true
same_file _ _ = false

abbrev pub same_region : Which → ℕ → ℕ → Lock → Bool
same_region w off len l = same_file w l.file && (off == l.off && len == l.len)

-- The DB structure, the contents of the two files, and the locks that the process holds. A buffer
-- is the string that it holds. `cursor` is the file offset of the index file's descriptor.
pub record Db : Type 0 where
  pub idx : Bytes
  pub dat : Bytes
  pub locks : List Lock
  pub cursor : ℕ
  pub idxbuf : Bytes
  pub datbuf : Bytes
  pub idxoff : ℕ
  pub idxlen : ℕ
  pub datoff : ℕ
  pub datlen : ℕ
  pub ptrval : ℤ
  pub ptroff : ℕ
  pub chainoff : ℕ
  pub hashoff : ℕ
  pub nhash : ℕ
  pub cnt : Counts

-- Where the code ends the process: the message of err_dump or err_quit. `overrun` is a write past
-- the end of idxbuf, which C leaves undefined.
pub data Death : Type 0 where
  seek_error read_error short_index invalid_length missing_newline : Death
  missing_first_sep missing_second_sep too_many_seps negative_offset invalid_data_length : Death
  data_read_error data_missing_newline invalid_ptr overrun out_of_fuel : Death

-- `die` keeps the state that the process leaves behind.
pub data Outcome (A : Type 0) : Type 0 where
  ok : A → Db → Outcome A
  die : Death → Db → Outcome A

abbrev pub M : Type 0 → Type 0
M A = Db → Outcome A

module _ {A B : Type 0} where
  abbrev pub and_then : Outcome A → (A → M B) → Outcome B
  and_then (ok a d) k = k a d
  and_then (die e d) k = die e d

  infixl 5 ◌>>=◌ ◌>>◌
  abbrev pub ◌>>=◌ : M A → (A → M B) → M B
  m >>= k = λ d. and_then (m d) k

  abbrev pub ◌>>◌ : M A → M B → M B
  m >> k = m >>= λ _. k

abbrev pub pure : {A : Type 0} → A → M A
pure a d = ok a d

abbrev pub dump : {A : Type 0} → Death → M A
dump e d = die e d

abbrev pub get : M Db
get d = ok d d

abbrev pub put : Db → M (Unit {0})
put d _ = ok tt d

abbrev pub modify : (Db → Db) → M (Unit {0})
modify f d = ok tt (f d)

-- if (bad) err_dump(e)
abbrev pub dump_if : Bool → Death → M (Unit {0})
dump_if true e d = die e d
dump_if false e d = ok tt d

-- readw_lock, writew_lock and un_lock: fcntl on a region of a file.
unfoldable pub lock : Which → Kind → ℕ → ℕ → M (Unit {0})
lock w k off len d =
    ok tt (record d { locks = record { file = w; kind = k; off = off; len = len } ∷ d.locks })

unfoldable pub un_lock : Which → ℕ → ℕ → M (Unit {0})
un_lock w off len d =
    ok tt (record d { locks = filter_list (λ l. not (same_region w off len l)) d.locks })
