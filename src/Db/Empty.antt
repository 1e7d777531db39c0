-- ===== src/Db/Empty.antt =====
-- db_open of a new database.
use apue.Prelude.{
  ℕ, zero, suc, ◌+◌, ◌*◌, ◌<◌, ◌≡◌, refl, ap, ◌∙◌, true, [], ◌∷◌, ◌++◌, none, some, arith, take,
  drop,
}
use apue.Text.{Bytes, pad_left, decimal, put_digits}
use apue.File.{pread, pwrite}
use apue.Db.State.{Db, ok, ptr_sz, nhash_def, newline, lock, un_lock}
use apue.Db.Io.{db_hash, write_idx, table_end}
use apue.Db.Layout.{ptr_text}
use apue.Db.Chain.{Chain, find_item}
use apue.Db.Calls.{db_fetch}
use apue.Db.Open.{zero_ptrs, db_open, db_init, db_alloc, db_rewind}
use apue.Db.Find.{chain_of, fetch-find_item}

-- Pointer `k` of the hash table that a new file has.
pub pread-zero_ptrs :
    (n k : ℕ) (t : Bytes) → k < n → pread (zero_ptrs n ++ t) (k * ptr_sz) ptr_sz ≡ ptr_text 0
unfolding zero_ptrs pread pad_left decimal put_digits
pread-zero_ptrs zero k t h = absurd (omega arith)
pread-zero_ptrs (suc n) zero t h = refl
pread-zero_ptrs (suc n) (suc k) t h =
    let e : suc k * ptr_sz ≡ suc (suc (suc (suc (suc (suc (suc (k * ptr_sz))))))) = omega arith in
    ap (λ j. take ptr_sz (drop j (zero_ptrs (suc n) ++ t))) e ∙ pread-zero_ptrs n k t (omega arith)

append_nil : (s : Bytes) → s ++ [] ≡ s
append_nil [] = refl
append_nil (c ∷ s) = ap (λ t. c ∷ t) (append_nil s)

abbrev pub new_idx : Bytes
new_idx = zero_ptrs (nhash_def + 1) ++ newline ∷ []

-- The database: both files were empty, and the index file got its hash table.
abbrev pub opened : Db
opened =
    let d = db_alloc (pwrite [] 0 new_idx) [] in
    record d { cursor = table_end nhash_def; idxoff = table_end nhash_def }

pub opened_idx : opened.idx ≡ new_idx
unfolding pwrite zero_ptrs
opened_idx = append_nil new_idx

opened-Chain : (key : Bytes) → Chain opened.idx (chain_of opened key) []
unfolding db_hash
opened-Chain key =
    let h = db_hash nhash_def key in
    let place : h * ptr_sz + ptr_sz ≡ suc h * ptr_sz = omega arith in
    let small : h < nhash_def = omega arith in
    record {
      head = record {
        fits = omega arith;
        reads = rw opened_idx (
            ap (λ o. pread new_idx o ptr_sz) place
            ∙ pread-zero_ptrs (nhash_def + 1) (suc h) (newline ∷ []) (omega arith));
      };
      links = tt;
    }

pub db_open_new : db_open true true (some []) (some []) ≡ some (ok tt opened)
unfolding db_open db_init lock un_lock write_idx db_rewind
db_open_new = refl

-- On empty files, db_open with O_CREAT and O_TRUNC gives a database in which db_fetch finds no key,
-- whatever the key is; it returns NULL after at most one round of its loop.
fetch-open :
    (fuel : ℕ) (key : Bytes)
    → (d : Db) × (d' : Db) × (db_open true true (some []) (some []) ≡ some (ok tt d))
      × (db_fetch (suc fuel) key d ≡ ok none d')
unfolding find_item
fetch-open fuel key =
    let f = fetch-find_item (suc fuel) key [] opened (opened-Chain key) (omega arith) tt in
    (opened, f.0, db_open_new, f.1)
