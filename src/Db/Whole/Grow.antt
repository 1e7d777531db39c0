-- ===== src/Db/Whole/Grow.antt =====
-- append_record on a whole database: the new record stands behind all others in both files.
use apue.Prelude.{
  ℕ, suc, ◌+◌, ◌*◌, ◌<◌, ◌≤◌, ◌≡◌, sym, subst, inl, inr, List, [], ◌∷◌, ◌++◌, arith, length,
  length-append, Lacks, update, update_cases,
}
use apue.Prelude.Int.{pos}
use apue.Text.{Bytes}
use apue.File.{pwrite}
use apue.File.Laws.{length-pwrite}
use apue.Db.State.{Db, ok, newline, ptr_sz, ptr_max}
use apue.Db.Io.{seek_end, record_head}
use apue.Db.Io.Writes.{
  db_writedat_lem, wrote_dat, db_writeidx_lem, wrote_idx, pwrite-RecordAt, pwrite-DataAt,
}
use apue.Db.Io.Laws.{db_writeptr_lem}
use apue.Db.Layout.{IsEntry, entry_text, ptr_text, length-record_head}
use apue.Db.Chain.{Item, entry, first}
use apue.Db.Calls.{append_record}
use apue.Db.Image.{Image, extent, data_len, Stands, StandsAt, Holds, Avoids, Linked}
use apue.Db.Image.Frame.{pwrite-Same, RecordAt-inside}
use apue.Db.Image.Writes.{write_slot, add-Holds}
use apue.Db.Image.Relink.{pushed, push-Shape}
use apue.Db.Whole.{Sound, DistinctKeys, Fresh}

module _ (nhash : ℕ) (idx dat : Bytes) (m : Image) (h : Holds nhash idx dat m) where
  -- Every record of a list stands in front of the end of the index file.
  Linked-inside : (is : List Item) → Linked m is → Avoids (length idx + 0) is
  Linked-inside [] l = tt
  Linked-inside (i ∷ is) l =
      let s = subst (StandsAt nhash idx dat i.off) l.0 (h.recs i.off) in
      (
        omega (arith, RecordAt-inside idx i.off (first is) (entry i) s.is_entry s.at),
        Linked-inside is l.2,
      )

module _ (d : Db) (m : Image) (ls : ℕ → List Item) (w : Sound d m ls) (s : ℕ) (small : s < d.nhash)
    (key text : Bytes) (room : length d.idx + 0 ≤ ptr_max)
    (e : IsEntry (record { key = key; start = length d.dat + 0; len = length text + 1 }))
    (clean : Lacks 0 text) where
  abbrev pub added_item : Item
  added_item = record { off = length d.idx + 0; key = key; start = length d.dat + 0; text = text }

  abbrev slot : ℕ
  slot = suc s

  abbrev pub chain_next : ℕ
  chain_next = first (ls slot)

  in_table : slot ≤ d.nhash
  in_table = omega arith

  next_fits : chain_next ≤ ptr_max
  next_fits = omega (arith, (w.holds.slots slot in_table).fits, w.shape.heads slot in_table)

  abbrev put_dat : Db
  put_dat = wrote_dat text 0 d seek_end

  abbrev put_idx : Db
  put_idx = wrote_idx key 0 chain_next put_dat seek_end

  abbrev pub grown : Db
  grown = record put_idx {
    idx = pwrite put_idx.idx d.chainoff (ptr_text put_idx.idxoff);
    cursor = d.chainoff + ptr_sz;
  }

  pub append_record-grown : append_record key text (pos chain_next) d ≡ ok tt grown
  unfolding append_record
  append_record-grown = rw (
    db_writedat_lem text 0 d seek_end,
    db_writeidx_lem key 0 chain_next put_dat next_fits e seek_end,
    db_writeptr_lem d.chainoff put_idx.idxoff put_idx room,
  )

  new_Stands : Stands d.nhash put_idx.idx put_dat.dat (length d.idx + 0) chain_next added_item
  new_Stands = record {
    behind = omega (arith, w.holds.table);
    reach = room;
    is_entry = e;
    at = pwrite-RecordAt d.idx (length d.idx + 0) chain_next (entry added_item) next_fits e;
    text_at = pwrite-DataAt d.dat (length d.dat + 0) text;
    clean = clean;
  }

  idx_length :
      length (
        record_head chain_next (length (entry_text (entry added_item)))
        ++ entry_text (entry added_item))
      ≡ extent added_item
  idx_length =
      let t = entry_text (entry added_item) in
      omega (
        arith,
        length-append (record_head chain_next (length t)) t,
        length-record_head chain_next (length t) next_fits e.max,
      )

  grown-Holds :
      d.chainoff ≡ slot * ptr_sz
      → Holds d.nhash grown.idx grown.dat (pushed m slot added_item chain_next)
  grown-Holds c =
      let t =
        record_head chain_next (length (entry_text (entry added_item)))
        ++ entry_text (entry added_item) in
      let a =
        add-Holds d.nhash d.idx d.dat m w.holds put_idx.idx put_dat.dat (length d.idx + 0)
          chain_next added_item new_Stands (omega arith) (omega arith)
          (pwrite-Same d.idx (length d.idx + 0) t (extent added_item) (omega (arith, idx_length)))
          (pwrite-Same d.dat (length d.dat + 0) (text ++ newline ∷ []) (data_len added_item)
            (omega (arith, length-append text (newline ∷ []))))
          (omega (arith, length-pwrite d.idx (length d.idx + 0) t)) in
      subst
        (λ p.
          Holds d.nhash (pwrite put_idx.idx p (ptr_text put_idx.idxoff)) put_dat.dat
            (pushed m slot added_item chain_next))
        (sym c)
        (write_slot d.nhash put_idx.idx put_dat.dat _ a slot (length d.idx + 0) in_table room)

  pub grown-Sound :
      d.chainoff ≡ slot * ptr_sz
      → Fresh key (ls slot)
      → Sound grown (pushed m slot added_item chain_next) (update ls slot (added_item ∷ ls slot))
  grown-Sound c fresh = record {
    table = w.table;
    some_chains = w.some_chains;
    holds = grown-Holds c;
    shape =
        push-Shape d.nhash m ls w.shape slot added_item in_table
          (λ t k. Linked-inside d.nhash d.idx d.dat m w.holds (ls t) (w.shape.linked t k));
    distinct = λ h k. elim (update_cases ls slot (added_item ∷ ls slot) (suc h)) [
      | inl (q, v) ↦ subst DistinctKeys (sym v) (fresh, w.distinct s small)
      | inr (ne, v) ↦ subst DistinctKeys (sym v) (w.distinct h k)
    ];
  }
