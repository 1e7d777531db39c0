-- ===== src/Db/Whole/Open.antt =====
-- db_open: of empty files, and of files that hold a database.
use apue.Prelude.{
  ℕ, zero, suc, ◌+◌, ◌*◌, ◌≡◌, refl, sym, ap, ◌∙◌, Bool, true, false, ◌&&◌, ◌==◌, List, [], ◌∷◌,
  none, some, arith, length, length-append,
}
use apue.Text.{Bytes, decimal, pad_left, put_digits}
use apue.File.{pread}
use apue.Db.State.{Db, ok, ptr_sz, nhash_def, newline, idx_file, write_lock, lock, un_lock}
use apue.Db.Io.{table_end}
use apue.Db.Io.Writes.{not_region}
use apue.Db.Chain.{Item}
use apue.Db.Open.{zero_ptrs, db_open, db_init, db_alloc, db_rewind}
use apue.Db.Empty.{opened, opened_idx, pread-zero_ptrs}
use apue.Db.Image.{Image}
use apue.Db.Whole.{Sound, lookup}
use apue.Db.Whole.Search.{keep-Sound}

abbrev pub no_records : Image
no_records = record { slot = λ s. 0; rec = λ o. none }

abbrev pub no_lists : ℕ → List Item
no_lists s = []

length-zero_ptrs : (n : ℕ) → length (zero_ptrs n) ≡ n * ptr_sz
unfolding zero_ptrs pad_left decimal put_digits
length-zero_ptrs zero = refl
length-zero_ptrs (suc n) = omega (arith, length-zero_ptrs n)

new_length : length opened.idx ≡ table_end nhash_def
new_length =
    ap (λ (f : Bytes). length f) opened_idx
    ∙ length-append (zero_ptrs (nhash_def + 1)) (newline ∷ [])
    ∙ ap (λ n. n + 1) (length-zero_ptrs (nhash_def + 1))

-- A new database is one with nothing in it.
pub opened-Sound : Sound opened no_records no_lists
opened-Sound = record {
  table = refl;
  some_chains = omega arith;
  holds = record {
    table = omega (arith, new_length);
    slots = λ s k. record {
      fits = omega arith;
      reads =
          ap (λ f. pread f (s * ptr_sz) ptr_sz) opened_idx
          ∙ pread-zero_ptrs (nhash_def + 1) s (newline ∷ []) (omega arith);
    };
    recs = λ o. tt;
    apart = λ o p. tt;
  };
  shape = record { heads = λ s k. refl; linked = λ s k. tt; disjoint = λ s t ks kt ne. tt };
  distinct = λ h k. tt;
}

-- The hash table is there already.
init_keeps :
    (created : Bool) (idx dat : Bytes)
    → (length idx == 0) ≡ false
    → (d : Db) × (db_init created (db_alloc idx dat) ≡ ok tt d)
      × (d.idx ≡ idx)
      × (d.dat ≡ dat)
      × (d.hashoff ≡ ptr_sz)
      × (d.nhash ≡ nhash_def)
unfolding db_init lock un_lock db_rewind
init_keeps false idx dat h = (_, refl, refl, refl, refl, refl)
init_keeps true idx dat h =
    let d = db_alloc idx dat in
    (
      record d {
        cursor = table_end nhash_def;
        idxoff = table_end nhash_def;
        locks =
            not_region idx_file 0 0
              (record { file = idx_file; kind = write_lock; off = 0; len = 0 } ∷ []);
      },
      rw h,
      refl,
      refl,
      refl,
      refl,
    )

-- db_open of the files of a whole database with the hash table of 137 chains, whatever the flags
-- say of creation, and with the files as they are at the time of its fstat, succeeds and gives a
-- whole database with the same records: every key has what it had.
pub db_open-Sound :
    (creat trunc : Bool) (d : Db) (m : Image) (ls : ℕ → List Item)
    → Sound d m ls
    → d.nhash ≡ nhash_def
    → (d' : Db) × (db_open creat trunc (some d.idx) (some d.dat) ≡ some (ok tt d'))
      × Sound d' m ls
      × ((k : Bytes) → lookup d'.nhash ls k ≡ lookup d.nhash ls k)
unfolding db_open
db_open-Sound creat trunc d m ls w n =
    let nonempty : (length d.idx == 0) ≡ false = ground (arith, w.holds.table) in
    let (e, run, i, t, h, c) = init_keeps (creat && trunc) d.idx d.dat nonempty in
    (
      e,
      ap some run,
      keep-Sound d e m ls w i t (h ∙ sym w.table) (c ∙ sym n),
      λ k. ap (λ x. lookup x ls k) (c ∙ sym n),
    )
