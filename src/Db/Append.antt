-- ===== src/Db/Append.antt =====
-- append_record of db_store, and the hash chain that it adds to.
use mathlib.Core.Option
use apue.Prelude.{
  Bool, true, false, Option, some, if◌then◌else◌, subst, ℕ, suc, ◌+◌, ◌≤◌, ◌<◌, ◌≡◌, refl, sym, ap,
  ◌∙◌, List, [], ◌∷◌, arith, length, length-take, length-drop, length-append, drop, Lacks, All,
  All_mono,
}
use apue.Prelude.Int.{pos}
use apue.Text.{Bytes, str_eq}
use apue.File.{pread, pwrite}
use apue.File.Laws.{pread-pwrite_before, pread-pwrite_behind}
use apue.Db.State.{Db, ok, ptr_sz, ptr_max, newline, idxlen_sz}
use apue.Db.Io.{seek_end, seek_to}
use apue.Db.Io.Laws.{db_writeptr_lem}
use apue.Db.Io.Writes.{
  db_writedat_lem, wrote_dat, wrote_dat-DataAt, db_writeidx_lem, wrote_idx, wrote_idx-RecordAt,
}
use apue.Db.Io.RoundTrip.{pwrite-PtrAt}
use apue.Db.Layout.{
  RecordAt, DataAt, Entry, IsEntry, entry_text, ptr_text, length-ptr_text, length-record_head,
}
use apue.Db.Chain.{Item, entry, first, Links, Chain, Texts, find_item}
use apue.Db.Calls.{append_record, db_fetch}
use apue.Db.Find.{chain_of, fetch-find_item}

-- A read that came whole lies inside the file.
pread-inside :
    (f : Bytes) (i n : ℕ) (s : Bytes) → pread f i n ≡ s → length s ≡ n → 0 < n → i + n ≤ length f
unfolding pread
pread-inside f i n s e l h =
    omega (arith, length-take n (drop i f), length-drop i f, ap (λ (t : Bytes). length t) e)

-- `g` reads as `f` does from `lo` on, as far as `f` goes.
abbrev Extends : Bytes → Bytes → ℕ → Type 0
Extends f g lo = (i n : ℕ) → lo ≤ i → i + n ≤ length f → pread g i n ≡ pread f i n

module _ (f g : Bytes) (lo : ℕ) (x : Extends f g lo) where
  keep-RecordAt :
      (off next : ℕ) (e : Entry)
      → lo ≤ off
      → IsEntry e
      → RecordAt f off next e
      → RecordAt g off next e
  keep-RecordAt off next e h ok_entry r =
      let full = length-record_head next (length (entry_text e)) r.fits ok_entry.max in
      record {
        fits = r.fits;
        head =
            x off (ptr_sz + idxlen_sz) h
              (pread-inside f off (ptr_sz + idxlen_sz) _ r.head full (omega arith))
            ∙ r.head;
        body =
            x (off + (ptr_sz + idxlen_sz)) (length (entry_text e)) (omega arith) (
              pread-inside f (off + (ptr_sz + idxlen_sz)) (length (entry_text e)) _ r.body refl
                (omega (arith, ok_entry.min)))
            ∙ r.body;
      }

  keep-Links : (is : List Item) → All (λ i. lo ≤ i.off) is → Links f is → Links g is
  keep-Links [] h l = tt
  keep-Links (i ∷ is) h l = (
    record {
      not_null = l.0.not_null;
      is_entry = l.0.is_entry;
      at = keep-RecordAt i.off (first is) (entry i) h.0 l.0.is_entry l.0.at;
    },
    keep-Links is h.1 l.1,
  )

  keep-DataAt : (start : ℕ) (text : Bytes) → lo ≤ start → DataAt f start text → DataAt g start text
  keep-DataAt start text h d = record {
    reads =
        x start (length text + 1) h (
          pread-inside f start (length text + 1) _ d.reads (length-append text (newline ∷ []))
            (omega arith))
        ∙ d.reads;
  }

keep-Texts : (f g : Bytes) → Extends f g 0 → (is : List Item) → Texts f is → Texts g is
keep-Texts f g x = All_mono (λ i t. record {
  at = keep-DataAt f g 0 x i.start i.text (omega arith) t.at;
  no_nul = t.no_nul;
})

module _ (key text : Bytes) (is : List Item) (d : Db) (c : Chain d.idx d.chainoff is)
    (t : Texts d.dat is) (behind : All (λ i. d.chainoff + ptr_sz ≤ i.off) is)
    (room : seek_to seek_end d.idx 0 ≤ ptr_max)
    (e : IsEntry (record { key = key; start = seek_to seek_end d.dat 0; len = length text + 1 }))
    (clean : Lacks 0 text) where
  abbrev pub appended : Item
  appended = record {
    off = seek_to seek_end d.idx 0;
    key = key;
    start = seek_to seek_end d.dat 0;
    text = text;
  }

  -- After the data, after the index record, and after the chain pointer.
  abbrev put_dat : Db
  put_dat = wrote_dat text 0 d seek_end

  abbrev put_idx : Db
  put_idx = wrote_idx key 0 (first is) put_dat seek_end

  abbrev pub put_ptr : Db
  put_ptr = record put_idx {
    idx = pwrite put_idx.idx d.chainoff (ptr_text put_idx.idxoff);
    cursor = d.chainoff + ptr_sz;
  }

  pub append_record_lem : append_record key text (pos (first is)) d ≡ ok tt put_ptr
  unfolding append_record
  append_record_lem = rw (
    db_writedat_lem text 0 d seek_end,
    db_writeidx_lem key 0 (first is) put_dat c.head.fits e seek_end,
    db_writeptr_lem d.chainoff put_idx.idxoff put_idx room,
  )

  head_inside : d.chainoff + ptr_sz ≤ length d.idx
  head_inside =
      pread-inside d.idx d.chainoff ptr_sz _ c.head.reads (length-ptr_text (first is) c.head.fits)
        (omega arith)

  -- The new record was not there when its chain pointer was written.
  behind_ptr : (lo : ℕ) → d.chainoff + ptr_sz ≤ lo → Extends put_idx.idx put_ptr.idx lo
  behind_ptr lo h i n l k =
      pread-pwrite_behind put_idx.idx d.chainoff (ptr_text put_idx.idxoff) i n
        (omega (arith, length-ptr_text put_idx.idxoff room))

  Extends-idx : Extends d.idx put_ptr.idx (d.chainoff + ptr_sz)
  Extends-idx i n l k =
      pread-pwrite_behind put_idx.idx d.chainoff (ptr_text put_idx.idxoff) i n
        (omega (arith, length-ptr_text put_idx.idxoff room))
      ∙ pread-pwrite_before d.idx put_idx.idxoff _ i n (omega arith) k

  Extends-dat : Extends d.dat put_ptr.dat 0
  Extends-dat i n l k = pread-pwrite_before d.dat put_dat.datoff _ i n (omega arith) k

  pub put-Chain : Chain put_ptr.idx d.chainoff (appended ∷ is)
  put-Chain = record {
    head = pwrite-PtrAt put_idx.idx d.chainoff put_idx.idxoff room;
    links = (
      record {
        not_null = omega (arith, head_inside);
        is_entry = e;
        at =
            keep-RecordAt put_idx.idx put_ptr.idx put_idx.idxoff
              (behind_ptr put_idx.idxoff (omega (arith, head_inside))) put_idx.idxoff (first is)
              (entry appended) (omega arith) e
              (wrote_idx-RecordAt key 0 (first is) put_dat c.head.fits e seek_end);
      },
      keep-Links d.idx put_ptr.idx (d.chainoff + ptr_sz) Extends-idx is behind c.links,
    );
  }

  pub put-Texts : Texts put_ptr.dat (appended ∷ is)
  put-Texts = (
    record { at = wrote_dat-DataAt text 0 d seek_end; no_nul = clean },
    keep-Texts d.dat put_ptr.dat Extends-dat is t,
  )

  -- On a database in which the hash chain at chainoff is a chain of valid records, all behind its
  -- chain pointer and each with its data, append_record of a key and a text that fit in a record
  -- and hold no NUL, the key no separator either, puts the record behind everything in the two
  -- files and in front of the hash chain: the chain then holds the new record and those that it
  -- held, each with its data. The index file is no longer than PTR_MAX.
  append_record-cons :
      (d' : Db) × (append_record key text (pos (first is)) d ≡ ok tt d')
      × Chain d'.idx d.chainoff (appended ∷ is)
      × Texts d'.dat (appended ∷ is)
  append_record-cons = (put_ptr, append_record_lem, put-Chain, put-Texts)

  -- Under the conditions of an append, db_fetch of any key of the hash chain at chainoff finds,
  -- once the record is appended, the new text for the new key, and for every other key what it
  -- found before. The fuel is greater than the number of records on the chain, the new one
  -- included.
  fetch-append_record :
      (fuel : ℕ) (k : Bytes)
      → chain_of d k ≡ d.chainoff
      → suc (length is) < fuel
      → (d' : Db) × (d'' : Db) × (append_record key text (pos (first is)) d ≡ ok tt d')
        × (db_fetch fuel k d'
            ≡ ok
                (if str_eq key k
                  then some text
                  else Option.map (λ (i : Item). i.text) (find_item k is))
                d'')
  unfolding find_item
  fetch-append_record fuel k same enough =
      let f =
        fetch-find_item fuel k (appended ∷ is) put_ptr
          (subst (λ p. Chain put_ptr.idx p (appended ∷ is)) (sym same) put-Chain) enough
          put-Texts in
      (
        put_ptr,
        f.0,
        append_record_lem,
        f.1 ∙ ap (λ o. ok o f.0) (found (str_eq key k) (find_item k is)),
      )
    where
      found :
          (b : Bool) (o : Option Item)
          → Option.map (λ (i : Item). i.text) (if b then some appended else o)
            ≡ (if b then some text else Option.map (λ (i : Item). i.text) o)
      found true o = refl
      found false o = refl
