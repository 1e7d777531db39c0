-- ===== src/Db/Image/Lists.antt =====
-- Lists of records in an image, and what they are in the files.
use apue.Prelude.{
  update, update_ne, update_self, All-cut, All-middle, ℕ, ◌*◌, ◌≤◌, ◌≡◌, ◌≢◌, refl, sym, ap, subst,
  ◌∙◌, List, [], ◌∷◌, ◌++◌, Option, some, arith, append-All,
}
use apue.Text.{Bytes}
use apue.Db.State.{ptr_sz}
use apue.Db.Layout.{PtrAt}
use apue.Db.Chain.{Item, first, Links, Chain, Texts}
use apue.Db.Image.{Image, Stands, StandsAt, Holds, Avoids, Linked}

module _ (nhash : ℕ) (idx dat : Bytes) (m : Image) (h : Holds nhash idx dat m) where
  stands : (o next : ℕ) (i : Item) → m.rec o ≡ some (next, i) → Stands nhash idx dat o next i
  stands o next i e = subst (StandsAt nhash idx dat o) e (h.recs o)

  pub Linked-Links : (is : List Item) → Linked m is → Links idx is
  Linked-Links [] l = tt
  Linked-Links (i ∷ is) l =
      let s = stands i.off (first is) i l.0 in
      (
        record { not_null = omega (arith, s.behind); is_entry = s.is_entry; at = s.at },
        Linked-Links is l.2,
      )

  pub Linked-Texts : (is : List Item) → Linked m is → Texts dat is
  Linked-Texts [] l = tt
  Linked-Texts (i ∷ is) l =
      let s = stands i.off (first is) i l.0 in
      (record { at = s.text_at; no_nul = s.clean }, Linked-Texts is l.2)

  pub Linked-Chain :
      (s : ℕ) (is : List Item)
      → s ≤ nhash
      → m.slot s ≡ first is
      → Linked m is
      → Chain idx (s * ptr_sz) is
  Linked-Chain s is k e l = record {
    head = subst (λ n. PtrAt idx (s * ptr_sz) n) e (h.slots s k);
    links = Linked-Links is l;
  }

-- A record elsewhere changes.
pub Linked-update :
    (m : Image) (o : ℕ) (v : Option (ℕ × Item)) (is : List Item)
    → Avoids o is
    → Linked m is
    → Linked (record m { rec = update m.rec o v }) is
Linked-update m o v [] a l = tt
Linked-update m o v (i ∷ is) a l =
    (update_ne m.rec o v i.off a.0 ∙ l.0, l.1, Linked-update m o v is a.1 l.2)

-- The record with the pointer to what stands behind `ys`.
abbrev pub last_off : ℕ → List Item → ℕ
last_off p [] = p
last_off p (i ∷ is) = last_off i.off is

pub Avoids-last : (o : ℕ) (i : Item) (is : List Item) → Avoids o (i ∷ is) → last_off i.off is ≢ o
Avoids-last o i [] a = a.0
Avoids-last o i (j ∷ is) a = Avoids-last o j is a.1

-- The record in the middle of a list, and that no other record of it stands at its offset.
pub Linked-middle :
    (m : Image) (ys : List Item) (i : Item) (zs : List Item)
    → Linked m (ys ++ i ∷ zs)
    → (m.rec i.off ≡ some (first zs, i)) × Avoids i.off (ys ++ zs)
Linked-middle m [] i zs l = (l.0, l.1)
Linked-middle m (y ∷ ys) i zs l =
    let (e, a) = Linked-middle m ys i zs l.2 in
    (e, ((λ q. All-middle (λ j. j.off ≢ y.off) ys i zs l.1 (sym q)), a))

-- A list without its first record.
pub Linked-tail : (m : Image) (i : Item) (is : List Item) → Linked m (i ∷ is) → Linked m is
Linked-tail m i is l = l.2

-- The pointer behind `b ∷ us` is written: the record in the middle leaves the list.
pub Linked-cut :
    (m : Image) (b : Item) (us : List Item) (i : Item) (zs : List Item)
    → Linked m ((b ∷ us) ++ i ∷ zs)
    → (c : Item) × (m.rec (last_off b.off us) ≡ some (i.off, c))
      × Linked
          (record m { rec = update m.rec (last_off b.off us) (some (first zs, c)) })
          ((b ∷ us) ++ zs)
Linked-cut m b [] i zs l = (
  b,
  l.0,
  (
    update_self m.rec b.off (some (first zs, b)),
    l.1.1,
    Linked-update m b.off (some (first zs, b)) zs l.1.1 l.2.2,
  ),
)
Linked-cut m b (d ∷ us) i zs l =
    let (c, at, rest) = Linked-cut m d us i zs l.2 in
    (
      c,
      at,
      (
        update_ne m.rec (last_off d.off us) (some (first zs, c)) b.off (λ e.
              Avoids-last b.off d us (append-All (λ j. j.off ≢ b.off) (d ∷ us) (i ∷ zs) l.1).0
                (sym e))
            ∙ l.0,
        All-cut (λ j. j.off ≢ b.off) (d ∷ us) i zs l.1,
        rest,
      ),
    )

-- A record in the middle changes in place.
pub Linked-change :
    (m : Image) (ys : List Item) (i i' : Item) (zs : List Item)
    → i'.off ≡ i.off
    → Linked m (ys ++ i ∷ zs)
    → Linked (record m { rec = update m.rec i.off (some (first zs, i')) }) (ys ++ i' ∷ zs)
Linked-change m [] i i' zs e l = (
  ap (update m.rec i.off (some (first zs, i'))) e ∙ update_self m.rec i.off (some (first zs, i')),
  subst (λ o. Avoids o zs) (sym e) l.1,
  Linked-update m i.off (some (first zs, i')) zs l.1 l.2,
)
Linked-change m (y ∷ ys) i i' zs e l =
    let other = All-middle (λ j. j.off ≢ y.off) ys i zs l.1 in
    (
      update_ne m.rec i.off (some (first zs, i')) y.off (λ q. other (sym q))
          ∙ l.0
          ∙ ap (λ n. some (n, y)) (same_first ys),
      replaced ys l.1,
      Linked-change m ys i i' zs e l.2,
    )
  where
    same_first : (ys : List Item) → first (ys ++ i ∷ zs) ≡ first (ys ++ i' ∷ zs)
    same_first [] = sym e
    same_first (x ∷ xs) = refl

    replaced : (xs : List Item) → Avoids y.off (xs ++ i ∷ zs) → Avoids y.off (xs ++ i' ∷ zs)
    replaced [] a = ((λ q. a.0 (sym e ∙ q)), a.1)
    replaced (x ∷ xs) a = (a.0, replaced xs a.1)
