-- ===== src/Db/Whole/Dodelete.antt =====
-- The writes of _db_dodelete.
use apue.Prelude.{ℕ, ◌+◌, ◌-◌, ◌≤◌, ◌≡◌, ◌∷◌, arith, length}
use apue.File.{pwrite}
use apue.Db.State.{Db, ok, lock, un_lock, idx_file, write_lock, ptr_sz, ptr_max, free_off}
use apue.Db.Io.{seek_set}
use apue.Db.Io.Laws.{at_record, db_readptr_lem, db_writeptr_lem}
use apue.Db.Io.Writes.{db_writedat_lem, wrote_dat, db_writeidx_lem, wrote_idx, not_region}
use apue.Db.Layout.{PtrAt, IsEntry, ptr_text}
use apue.Db.Chain.{Item, entry}
use apue.Db.Calls.{db_dodelete}
use apue.Db.Image.Free.{blank}

-- The states of _db_dodelete at the record `i`, whose chain pointer is `next`; the free list starts
-- at `free`.
module _ (d : Db) (i : Item) (next free : ℕ) where
  abbrev pub found : Db
  found = at_record i.off next (entry i) d

  abbrev pub blanked : Db
  blanked = record found {
    datbuf = (blank i).text;
    idxbuf = (blank i).key;
    locks = record { file = idx_file; kind = write_lock; off = free_off; len = 1 } ∷ d.locks;
  }

  abbrev pub after_dat : Db
  after_dat = wrote_dat (blank i).text i.start blanked seek_set

  abbrev pub after_idx : Db
  after_idx =
      wrote_idx (blank i).key i.off free (record after_dat { cursor = free_off + ptr_sz }) seek_set

  abbrev pub after_free : Db
  after_free = record after_idx {
    idx = pwrite after_idx.idx free_off (ptr_text i.off);
    cursor = free_off + ptr_sz;
  }

  abbrev pub deleted : Db
  deleted = record after_free {
    idx = pwrite after_free.idx d.ptroff (ptr_text next);
    cursor = d.ptroff + ptr_sz;
    locks = not_region idx_file free_off 1 after_free.locks;
  }

  pub db_dodelete_lem :
      PtrAt d.idx free_off free
      → IsEntry (entry (blank i))
      → i.off ≤ ptr_max
      → next ≤ ptr_max
      → db_dodelete found ≡ ok tt deleted
  unfolding db_dodelete lock un_lock
  db_dodelete_lem p e reach fits =
      let less : length i.text + 1 - 1 ≡ length i.text = omega arith in
      rw less (
        rw (
          db_writedat_lem (blank i).text i.start blanked seek_set,
          db_readptr_lem free_off free after_dat p,
          db_writeidx_lem (blank i).key i.off free (record after_dat { cursor = free_off + ptr_sz })
              p.fits e seek_set,
          db_writeptr_lem free_off i.off after_idx reach,
          db_writeptr_lem d.ptroff next after_free fits,
        ))
