-- ===== src/Db/Image/Relink.antt =====
-- All lists of an image, the free list and the hash chains: a record leaves one, joins one or changes.
use apue.Prelude.{
  All-middle, All-cut, All_mono, subst, ap, refl, Option, none, ◌++◌, update, update_cases,
  update_ne, update_self, ℕ, ◌≤◌, ◌≡◌, ◌≢◌, sym, ◌∙◌, inl, inr, List, [], ◌∷◌, some, All,
}
use apue.Db.Chain.{Item, first}
use apue.Db.Image.{Image, Avoids, Linked}
use apue.Db.Image.Lists.{Linked-update, last_off, Linked-cut, Linked-middle, Linked-tail}

-- The list of each slot: its pointer, its links, and that no record is in two lists.
pub record Shape (nhash : ℕ) (m : Image) (ls : ℕ → List Item) : Type 0 where
  pub heads : (s : ℕ) → s ≤ nhash → m.slot s ≡ first (ls s)
  pub linked : (s : ℕ) → s ≤ nhash → Linked m (ls s)
  pub disjoint : (s t : ℕ) → s ≤ nhash → t ≤ nhash → s ≢ t → All (λ i. Avoids i.off (ls t)) (ls s)

abbrev pub Disjoint : List Item → List Item → Type 0
Disjoint is js = All (λ i. Avoids i.off js) is

-- No list has a record at `o`.
abbrev pub Loose : ℕ → (ℕ → List Item) → ℕ → Type 0
Loose nhash ls o = (s : ℕ) → s ≤ nhash → Avoids o (ls s)

Disjoint-subst : {a b c d : List Item} → a ≡ b → c ≡ d → Disjoint b d → Disjoint a c
Disjoint-subst {a} {b} {c} {d} e f x =
    subst (λ l. Disjoint l c) (sym e) (subst (Disjoint b) (sym f) x)

-- A pointer is written over.
abbrev pub redirect : ℕ → Option (ℕ × Item) → Option (ℕ × Item)
redirect next none = none
redirect next (some (n, c)) = some (next, c)

-- A record leaves the list of slot `s`: the pointer behind `ys` goes past it, to `zs`.
abbrev pub unlinked : Image → ℕ → List Item → List Item → Image
unlinked m s [] zs = record m { slot = update m.slot s (first zs) }
unlinked m s (b ∷ us) zs =
    let p = last_off b.off us in record m { rec = update m.rec p (redirect (first zs) (m.rec p)) }

-- A record that is in no list joins the front of one that starts at `next`.
abbrev pub pushed : Image → ℕ → Item → ℕ → Image
pushed m t i next = record {
  slot = update m.slot t i.off;
  rec = update m.rec i.off (some (next, i));
}

Linked-slot :
    (m : Image) (f : ℕ → ℕ) (is : List Item) → Linked m is → Linked (record m { slot = f }) is
Linked-slot m f [] l = tt
Linked-slot m f (i ∷ is) l = (l.0, l.1, Linked-slot m f is l.2)

Disjoint-last :
    (b : Item) (us rest js : List Item)
    → Disjoint ((b ∷ us) ++ rest) js
    → Avoids (last_off b.off us) js
Disjoint-last b [] rest js d = d.0
Disjoint-last b (c ∷ us) rest js d = Disjoint-last c us rest js d.1

module _ (nhash : ℕ) (m : Image) (ls : ℕ → List Item) (w : Shape nhash m ls) where
  -- The list of one slot is replaced, in an image that keeps the others.
  pub relink-Shape :
      (m' : Image) (t : ℕ) (l : List Item)
      → t ≤ nhash
      → m'.slot t ≡ first l
      → ((s : ℕ) → s ≢ t → m'.slot s ≡ m.slot s)
      → Linked m' l
      → ((s : ℕ) → s ≤ nhash → s ≢ t → Linked m' (ls s))
      → ((s : ℕ) → s ≤ nhash → s ≢ t → Disjoint l (ls s) × Disjoint (ls s) l)
      → Shape nhash m' (update ls t l)
  relink-Shape m' t l k head heads link links apart = record {
    heads = λ s ks. elim (update_cases ls t l s) [
      | inl (e, v) ↦ rw (v, e) head
      | inr (n, v) ↦ rw v (heads s n ∙ w.heads s ks)
    ];
    linked = λ s ks. elim (update_cases ls t l s) [
      | inl (e, v) ↦ rw v link
      | inr (n, v) ↦ rw v (links s ks n)
    ];
    disjoint = λ s u ks ku ne. elim (update_cases ls t l s) [
      | inl (se, sv) ↦ elim (update_cases ls t l u) [
        | inl (ue, uv) ↦ absurd (ne (se ∙ sym ue))
        | inr (un, uv) ↦ Disjoint-subst sv uv (apart u ku un).0
      ]
      | inr (sn, sv) ↦ elim (update_cases ls t l u) [
        | inl (ue, uv) ↦ Disjoint-subst sv uv (apart s ks sn).1
        | inr (un, uv) ↦ Disjoint-subst sv uv (w.disjoint s u ks ku ne)
      ]
    ];
  }

  pub push-Shape :
      (t : ℕ) (i : Item)
      → t ≤ nhash
      → Loose nhash ls i.off
      → Shape nhash (pushed m t i (first (ls t))) (update ls t (i ∷ ls t))
  push-Shape t i k loose =
      let v = some (first (ls t), i) in
      relink-Shape (pushed m t i (first (ls t))) t (i ∷ ls t) k (update_self m.slot t i.off)
        (update_ne m.slot t i.off)
        (
          update_self m.rec i.off v,
          loose t k,
          Linked-update m i.off v (ls t) (loose t k) (w.linked t k),
        )
        (λ s ks n. Linked-update m i.off v (ls s) (loose s ks) (w.linked s ks))
        (λ s ks n. (
          (loose s ks, w.disjoint t s k ks (λ e. n (sym e))),
          joined (ls s) (loose s ks) (w.disjoint s t ks k n),
        ))
    where
      joined :
          (is : List Item)
          → Avoids i.off is
          → All (λ j. Avoids j.off (ls t)) is
          → All (λ j. Avoids j.off (i ∷ ls t)) is
      joined [] a b = tt
      joined (j ∷ is) a b = (((λ e. a.0 (sym e)), b.0), joined is a.1 b.1)

  module _ (s : ℕ) (k : s ≤ nhash) (i : Item) (zs : List Item) where
    -- The other lists do not see it.
    still_apart :
        (ys : List Item)
        → ls s ≡ ys ++ i ∷ zs
        → (u : ℕ) → u ≤ nhash
        → u ≢ s
        → Disjoint (ys ++ zs) (ls u) × Disjoint (ls u) (ys ++ zs)
    still_apart ys e u ku ne = (
      All-cut (λ j. Avoids j.off (ls u)) ys i zs
          (subst (λ l. Disjoint l (ls u)) e (w.disjoint s u k ku (λ q. ne (sym q)))),
      All_mono (λ j a. All-cut (λ x. x.off ≢ j.off) ys i zs a) (ls u)
          (subst (Disjoint (ls u)) e (w.disjoint u s ku k ne)),
    )

    pub unlink-Shape :
        (ys : List Item)
        → ls s ≡ ys ++ i ∷ zs
        → Shape nhash (unlinked m s ys zs) (update ls s (ys ++ zs))
    unlink-Shape [] e =
        relink-Shape (unlinked m s [] zs) s zs k (update_self m.slot s (first zs))
          (update_ne m.slot s (first zs))
          (Linked-slot m (update m.slot s (first zs)) zs
            (Linked-tail m i zs (subst (Linked m) e (w.linked s k))))
          (λ u ku n. Linked-slot m (update m.slot s (first zs)) (ls u) (w.linked u ku))
          (still_apart [] e)
    unlink-Shape (b ∷ us) e =
        let p = last_off b.off us in
        let (c, at, cut) = Linked-cut m b us i zs (subst (Linked m) e (w.linked s k)) in
        let v = redirect (first zs) (m.rec p) in
        let same : v ≡ some (first zs, c) = ap (redirect (first zs)) at in
        relink-Shape (unlinked m s (b ∷ us) zs) s ((b ∷ us) ++ zs) k (w.heads s k ∙ ap first e)
          (λ u n. refl)
          (subst (λ r. Linked (record m { rec = update m.rec p r }) ((b ∷ us) ++ zs)) (sym same)
            cut)
          (λ u ku n.
            Linked-update m p v (ls u)
              (Disjoint-last b us (i ∷ zs) (ls u)
                (subst (λ l. Disjoint l (ls u)) e (w.disjoint s u k ku (λ q. n (sym q)))))
              (w.linked u ku))
          (still_apart (b ∷ us) e)

    -- It is then in no list.
    pub unlink-Loose :
        (ys : List Item) → ls s ≡ ys ++ i ∷ zs → Loose nhash (update ls s (ys ++ zs)) i.off
    unlink-Loose ys e u ku = elim (update_cases ls s (ys ++ zs) u) [
      | inl (q, v) ↦ rw v (Linked-middle m ys i zs (subst (Linked m) e (w.linked s k))).1
      | inr (n, v) ↦ rw v (
          All-middle (λ j. Avoids j.off (ls u)) ys i zs
            (subst (λ l. Disjoint l (ls u)) e (w.disjoint s u k ku (λ q. n (sym q)))))
    ]
