-- ===== src/Db/Image/Rewrite.antt =====
-- A record is written over by another with a key and a text of the same lengths.
use apue.Prelude.{
  ℕ, ◌+◌, ◌≤◌, ◌≡◌, refl, sym, ap, ap₂, subst, ◌∙◌, [], ◌∷◌, ◌++◌, some, arith, length,
  length-append, Lacks, update,
}
use apue.Text.{Bytes, decimal}
use apue.File.{pwrite}
use apue.File.Laws.{length-pwrite}
use apue.Db.State.{sep, newline, ptr_sz, ptr_max, idxlen_sz}
use apue.Db.Io.{record_text, record_head}
use apue.Db.Io.Writes.{pwrite-RecordAt, pwrite-DataAt}
use apue.Db.Layout.{IsEntry, entry_text, length-record_head}
use apue.Db.Chain.{Item, entry}
use apue.Db.Image.{Image, extent, data_len, Stands, StandsAt, Holds}
use apue.Db.Image.Frame.{pwrite-Same}
use apue.Db.Image.Writes.{change-Holds}

-- The record `i` with another key and text.
abbrev pub rewritten : Item → Bytes → Bytes → Item
rewritten i key text = record i { key = key; text = text }

-- A record of the same lengths can stand where the old one stood.
pub record Alike (i : Item) (key text : Bytes) : Type 0 where
  pub key_length : length key ≡ length i.key
  pub text_length : length text ≡ length i.text
  pub no_sep : Lacks sep key
  pub no_nul : Lacks 0 key
  pub clean : Lacks 0 text

module _ (i : Item) (key text : Bytes) (a : Alike i key text) where
  pub same_extent : extent (rewritten i key text) ≡ extent i
  unfolding record_text
  same_extent =
      ap (λ n. ptr_sz + idxlen_sz + n)
        (length-append key _
          ∙ ap₂
              (λ k b.
                k + length (sep ∷ (decimal i.start ++ (sep ∷ (decimal (b + 1) ++ newline ∷ [])))))
              a.key_length a.text_length
          ∙ sym (length-append i.key _))

  pub rewritten-IsEntry : IsEntry (entry i) → IsEntry (entry (rewritten i key text))
  rewritten-IsEntry e = record {
    no_sep = a.no_sep;
    no_nul = a.no_nul;
    min = omega (arith, same_extent, e.min);
    max = omega (arith, same_extent, e.max);
    some_data = omega arith;
    data_max = omega (arith, a.text_length, e.data_max);
  }

module _ (nhash : ℕ) (m : Image) (idx dat : Bytes) (h : Holds nhash idx dat m) (i : Item) (next : ℕ)
    (was : m.rec i.off ≡ some (next, i)) (key text : Bytes) (a : Alike i key text) (n : ℕ) where
  -- The files after the data record, and after the index record, with the chain pointer `n`.
  abbrev pub dat_over : Bytes
  dat_over = pwrite dat i.start (text ++ newline ∷ [])

  abbrev pub idx_over : Bytes
  idx_over =
      let t = entry_text (entry (rewritten i key text)) in
      pwrite idx i.off (record_head n (length t) ++ t)

  stood : Stands nhash idx dat i.off next i
  stood = subst (StandsAt nhash idx dat i.off) was (h.recs i.off)

  is_entry : IsEntry (entry (rewritten i key text))
  is_entry = rewritten-IsEntry i key text a stood.is_entry

  pub over_length :
      n ≤ ptr_max
      → length (
          record_head n (length (entry_text (entry (rewritten i key text))))
          ++ entry_text (entry (rewritten i key text)))
        ≡ extent i
  over_length fits =
      let t = entry_text (entry (rewritten i key text)) in
      omega (
        arith,
        length-append (record_head n (length t)) t,
        length-record_head n (length t) fits is_entry.max,
        same_extent i key text a,
      )

  pub rewrite-Holds :
      n ≤ ptr_max
      → Holds nhash idx_over dat_over
          (record m { rec = update m.rec i.off (some (n, rewritten i key text)) })
  rewrite-Holds fits =
      let t = entry_text (entry (rewritten i key text)) in
      change-Holds nhash idx dat m h idx_over dat_over i.off next n i (rewritten i key text) was
        (record {
          behind = stood.behind;
          reach = stood.reach;
          is_entry = is_entry;
          at = pwrite-RecordAt idx i.off n (entry (rewritten i key text)) fits is_entry;
          text_at = pwrite-DataAt dat i.start text;
          clean = a.clean;
        })
        (same_extent i key text a) refl (ap (λ k. k + 1) a.text_length)
        (pwrite-Same idx i.off (record_head n (length t) ++ t) (extent i)
          (omega (arith, over_length fits)))
        (pwrite-Same dat i.start (text ++ newline ∷ []) (data_len i)
          (omega (arith, length-append text (newline ∷ []), a.text_length)))
        (omega (arith, length-pwrite idx i.off (record_head n (length t) ++ t)))
