-- ===== src/Db/Image/Release.antt =====
-- The lists of an image in which a record went from its hash chain to the free list.
use apue.Prelude.{
  ℕ, ◌*◌, ◌≤◌, ◌≡◌, ◌≢◌, refl, sym, ap, subst, ◌∙◌, List, [], ◌∷◌, ◌++◌, some, arith, append-All,
  update, update_ne,
}
use apue.Text.{Bytes}
use apue.File.{pwrite}
use apue.Db.State.{ptr_sz}
use apue.Db.Layout.{ptr_text}
use apue.Db.Chain.{Item, first}
use apue.Db.Image.{Image, Stands, StandsAt, Holds, Avoids, Linked}
use apue.Db.Image.Lists.{last_off, Avoids-last, Linked-cut, Linked-middle}
use apue.Db.Image.Relink.{Shape, redirect, unlinked, pushed, push-Shape, unlink-Shape, unlink-Loose}
use apue.Db.Image.Free.{blank, update_comm, blank_dat, freed_idx, freed-Holds, unlink-Holds}

-- The writes of the free list and of the hash chain may change places.
unlinked-pushed :
    (m : Image) (s : ℕ) (j : Item) (n : ℕ) (ys zs : List Item)
    → s ≢ 0
    → ((b : Item) (us : List Item) → ys ≡ b ∷ us → last_off b.off us ≢ j.off)
    → pushed (unlinked m s ys zs) 0 j n ≡ unlinked (pushed m 0 j n) s ys zs
unlinked-pushed m s j n [] zs ne far =
    ap (λ f. record { slot = f; rec = update m.rec j.off (some (n, j)) })
      (update_comm m.slot s 0 (first zs) j.off ne)
unlinked-pushed m s j n (b ∷ us) zs ne far =
    let p = last_off b.off us in
    let v = some (n, j) in
    ap (λ f. record { slot = update m.slot 0 j.off; rec = f })
      (update_comm m.rec p j.off (redirect (first zs) (m.rec p)) v (far b us refl)
        ∙ ap (λ r. update (update m.rec j.off v) p (redirect (first zs) r))
            (sym (update_ne m.rec j.off v p (far b us refl))))

module _ (nhash : ℕ) (m : Image) (ls : ℕ → List Item) (w : Shape nhash m ls) (s : ℕ) (k : s ≤ nhash)
    (nz : s ≢ 0) (ys : List Item) (i : Item) (zs : List Item) (e : ls s ≡ ys ++ i ∷ zs) where
  abbrev pub released : Image
  released = unlinked (pushed m 0 (blank i) (m.slot 0)) s ys zs

  abbrev pub release : ℕ → List Item
  release = update (update ls s (ys ++ zs)) 0 (blank i ∷ ls 0)

  chain : Linked m (ys ++ i ∷ zs)
  chain = subst (Linked m) e (w.linked s k)

  far : (b : Item) (us : List Item) → ys ≡ b ∷ us → last_off b.off us ≢ i.off
  far b us q =
      let out = (Linked-middle m ys i zs chain).1 in
      Avoids-last i.off b us (subst (Avoids i.off) q (append-All (λ j. j.off ≢ i.off) ys zs out).0)

  pub release-Shape : Shape nhash released release
  release-Shape =
      let u = unlink-Shape nhash m ls w s k i zs ys e in
      let loose = unlink-Loose nhash m ls w s k i zs ys e in
      let same : update ls s (ys ++ zs) 0 ≡ ls 0 = update_ne ls s (ys ++ zs) 0 (λ q. nz (sym q)) in
      let p =
        push-Shape nhash (unlinked m s ys zs) (update ls s (ys ++ zs)) u 0 (blank i) (omega arith)
          loose in
      let next : first (update ls s (ys ++ zs) 0) ≡ m.slot 0 =
        ap first same ∙ sym (w.heads 0 (omega arith)) in
      subst (λ n. Shape nhash n release) (unlinked-pushed m s (blank i) (m.slot 0) ys zs nz far)
        (subst (λ n. Shape nhash (pushed (unlinked m s ys zs) 0 (blank i) n) release) next
          (subst
            (λ l.
              Shape nhash
                (pushed (unlinked m s ys zs) 0 (blank i) (first (update ls s (ys ++ zs) 0)))
                (update (update ls s (ys ++ zs)) 0 (blank i ∷ l)))
            same p))

  module _ (idx dat : Bytes) (h : Holds nhash idx dat m) where
    pub at_i : m.rec i.off ≡ some (first zs, i)
    at_i = (Linked-middle m ys i zs chain).0

    pub i_Stands : Stands nhash idx dat i.off (first zs) i
    i_Stands = subst (StandsAt nhash idx dat i.off) at_i (h.recs i.off)

    pub release-Holds :
        Holds nhash
          (pwrite
            (freed_idx nhash m idx dat h i (first zs) at_i)
            (last_off (s * ptr_sz) ys)
            (ptr_text (first zs)))
          (blank_dat nhash m idx dat h i (first zs) at_i)
          released
    release-Holds =
        unlink-Holds nhash (pushed m 0 (blank i) (m.slot 0))
          (freed_idx nhash m idx dat h i (first zs) at_i)
          (blank_dat nhash m idx dat h i (first zs) at_i) s ys zs
          (freed-Holds nhash m idx dat h i (first zs) at_i) k i_Stands.at.fits
          (λ b us q.
            let (c, at, cut) =
              Linked-cut m b us i zs (subst (λ l. Linked m (l ++ i ∷ zs)) q chain) in
            (
              i.off,
              c,
              update_ne m.rec i.off (some (m.slot 0, blank i)) (last_off b.off us) (far b us q)
                  ∙ at,
            ))
