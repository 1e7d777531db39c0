-- ===== src/Db/Whole/Tests.antt =====
-- The calls on a whole database of one hash chain with one record.
use apue.Prelude.{
  true, ◌*◌, ℕ, zero, suc, ◌≤◌, ◌≡◌, ◌≢◌, ◌<◌, refl, sym, subst, inl, inr, List, [], ◌∷◌, Option,
  none, some, arith, length, update, update_cases,
}
use apue.Text.{Bytes, codes, decimal, put_digits, pad_left}
use apue.File.{pread}
use apue.Db.State.{ptr_sz, Db, ok, replace}
use apue.Db.Io.{record_text, db_hash}
use apue.Db.Layout.{PtrAt}
use apue.Db.Chain.{Item, first, is_some}
use apue.Db.Calls.{db_fetch}
use apue.Db.Open.{db_open}
use apue.Db.Tests.{small, item, item-IsEntry, item-RecordAt, small-Texts}
use apue.Db.Image.{Image, Holds, StandsAt, Distant, Linked}
use apue.Db.Image.Relink.{Shape, Disjoint}
use apue.Db.Whole.{Sound, DistinctKeys, chain_for, lookup}
use apue.Db.Whole.Add.{Room}
use apue.Db.Empty.{opened}
use apue.Db.Whole.Open.{no_records, no_lists, opened-Sound, db_open-Sound}
use apue.Db.Whole.Fetch.{db_fetch-lookup}
use apue.Db.Whole.Delete.{Deletes, db_delete-lookup}
use apue.Db.Whole.Store.{Stores, db_store-lookup}

abbrev no_rec : ℕ → Option (ℕ × Item)
no_rec o = none

abbrev the_rec : Option (ℕ × Item)
the_rec = some (0, item)

abbrev image : Image
image = record { slot = update (λ s. 0) 1 15; rec = update no_rec 15 the_rec }

abbrev no_list : ℕ → List Item
no_list s = []

abbrev lists : ℕ → List Item
lists = update no_list 1 (item ∷ [])

slot_at : (s : ℕ) → s ≤ 1 → PtrAt small.idx (s * ptr_sz) (image.slot s)
unfolding pread pad_left decimal put_digits
slot_at zero k = record { fits = omega arith; reads = refl }
slot_at (suc zero) k = record { fits = omega arith; reads = refl }
slot_at (suc (suc s)) k = absurd (omega arith)

distant : (o p : ℕ) (r : Option (ℕ × Item)) → Distant o p r none
distant o p none = tt
distant o p (some (n, i)) = tt

small-Holds : Holds 1 small.idx small.dat image
small-Holds = record {
  table = omega arith;
  slots = slot_at;
  recs = λ o. elim (update_cases no_rec 15 the_rec o) [
    | inl (e, v) ↦ subst (StandsAt 1 small.idx small.dat o) (sym v) (
        subst (λ p. StandsAt 1 small.idx small.dat p the_rec) (sym e)
          (record {
            behind = omega arith;
            reach = omega arith;
            is_entry = item-IsEntry;
            at = item-RecordAt;
            text_at = small-Texts.0.at;
            clean = small-Texts.0.no_nul;
          }))
    | inr (n, v) ↦ subst (StandsAt 1 small.idx small.dat o) (sym v) tt
  ];
  apart = λ o p. elim (update_cases no_rec 15 the_rec p) [
    | inl (e, v) ↦ elim (update_cases no_rec 15 the_rec o) [
      | inl (e', v') ↦
          subst (λ r. Distant o p r (image.rec p)) (sym v')
            (subst (Distant o p the_rec) (sym v) (λ ne. absurd (ne (omega arith))))
      | inr (n', v') ↦ subst (λ r. Distant o p r (image.rec p)) (sym v') tt
    ]
    | inr (n, v) ↦ subst (Distant o p (image.rec o)) (sym v) (distant o p (image.rec o))
  ];
}

small-Shape : Shape 1 image lists
small-Shape = record {
  heads = λ s k. heads s k;
  linked = λ s k. linked s k;
  disjoint = λ s t ks kt ne. apart s t ks kt ne;
}
  where
    heads : (s : ℕ) → s ≤ 1 → image.slot s ≡ first (lists s)
    heads zero k = refl
    heads (suc zero) k = refl
    heads (suc (suc s)) k = absurd (omega arith)

    linked : (s : ℕ) → s ≤ 1 → Linked image (lists s)
    linked zero k = tt
    linked (suc zero) k = (refl, tt, tt)
    linked (suc (suc s)) k = absurd (omega arith)

    apart : (s t : ℕ) → s ≤ 1 → t ≤ 1 → s ≢ t → Disjoint (lists s) (lists t)
    apart zero t ks kt ne = tt
    apart (suc zero) zero ks kt ne = (tt, tt)
    apart (suc zero) (suc zero) ks kt ne = absurd (ne refl)
    apart (suc zero) (suc (suc t)) ks kt ne = absurd (omega arith)
    apart (suc (suc s)) t ks kt ne = absurd (omega arith)

small-Sound : Sound small image lists
small-Sound = record {
  table = refl;
  some_chains = omega arith;
  holds = small-Holds;
  shape = small-Shape;
  distinct = λ h k. keys h k;
}
  where
    keys : (h : ℕ) → h < 1 → DistinctKeys (lists (suc h))
    keys zero k = (tt, tt)
    keys (suc h) k = absurd (omega arith)

abbrev key : Bytes
key = codes "k1"

abbrev text : Bytes
text = codes "more"

small-Room : Room small key text
unfolding record_text decimal put_digits
small-Room = record {
  room = omega arith;
  is_entry = record {
    no_sep = (omega arith, (omega arith, tt));
    no_nul = (omega arith, (omega arith, tt));
    min = omega arith;
    max = omega arith;
    some_data = omega arith;
    data_max = omega arith;
  };
  clean = (omega arith, (omega arith, (omega arith, (omega arith, tt))));
}

enough : length (chain_for 1 lists key) < 9
unfolding db_hash
enough = omega arith

db_fetch-lookup_example :
    (d' : Db) × (db_fetch 9 key small ≡ ok (lookup 1 lists key) d')
    × Sound d' image lists
    × (d'.nhash ≡ 1)
db_fetch-lookup_example = db_fetch-lookup 9 key small image lists small-Sound enough

db_delete-lookup_example : Deletes 9 key small image lists small-Sound enough
db_delete-lookup_example = db_delete-lookup 9 key small image lists small-Sound enough

db_store-lookup_example :
    Stores 9 key text small image lists small-Sound enough
      (omega arith)
      small-Room
      (omega arith)
      replace
      (is_some (lookup 1 lists key))
db_store-lookup_example =
    db_store-lookup 9 key text small image lists small-Sound enough (omega arith) small-Room
      (omega arith) replace

db_open-Sound_example :
    (d' : Db) × (db_open true true (some opened.idx) (some []) ≡ some (ok tt d'))
    × Sound d' no_records no_lists
    × ((k : Bytes) → lookup d'.nhash no_lists k ≡ lookup opened.nhash no_lists k)
db_open-Sound_example = db_open-Sound true true opened no_records no_lists opened-Sound refl
