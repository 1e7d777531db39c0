-- ===== src/Dll/Split.antt =====
-- A segment is cut at a cell, and two segments are joined.
use apue.Prelude.{ℕ, ◌≡◌, ◌≢◌, refl, sym, ap, ◌∙◌, [], ◌∷◌, ◌++◌, some, All, All-append, append-All}
use apue.Dll.{Heap}
use apue.Dll.Seg.{Cells, node, Avoids, first, last, Seg}

module _ {A : Type 0} where
  -- No address of the one stands in the other.
  abbrev pub Disjoint : Cells A → Cells A → Type 0
  Disjoint xs ys = All (λ c. Avoids c.0 ys) xs

  pub first-append : (xs ys : Cells A) (end : ℕ) → first (xs ++ ys) end ≡ first xs (first ys end)
  first-append [] ys end = refl
  first-append (c ∷ xs) ys end = refl

  pub last-append : (prev : ℕ) (xs ys : Cells A) → last prev (xs ++ ys) ≡ last (last prev xs) ys
  last-append prev [] ys = refl
  last-append prev (c ∷ xs) ys = last-append c.0 xs ys

  -- The parts of a segment round a cell `t`.
  pub record Cut (h : Heap A) (prev : ℕ) (ys : Cells A) (t : ℕ) (x : A) (zs : Cells A) (end : ℕ)
      : Type 0 where
    pub front : Seg h prev ys t
    pub not_null : t ≢ 0
    pub at : h t ≡ some (node (first zs end) (last prev ys) x)
    pub back : Seg h t zs end
    pub out_front : Avoids t ys
    pub out_back : Avoids t zs
    pub apart : Disjoint ys zs

  pub Seg-Cut :
      (h : Heap A) (prev : ℕ) (ys : Cells A) (t : ℕ) (x : A) (zs : Cells A) (end : ℕ)
      → Seg h prev (ys ++ (t, x) ∷ zs) end
      → Cut h prev ys t x zs end
  Seg-Cut h prev [] t x zs end s = record {
    front = tt;
    not_null = s.0;
    at = s.1;
    back = s.3;
    out_front = tt;
    out_back = s.2;
    apart = tt;
  }
  Seg-Cut h prev ((b, y) ∷ ys) t x zs end s =
      let c = Seg-Cut h b ys t x zs end s.3 in
      let (out_ys, out) = append-All (λ c. c.0 ≢ b) ys ((t, x) ∷ zs) s.2 in
      record {
        front = (
          s.0,
          s.1 ∙ ap (λ k. some (node k prev y)) (first-append ys ((t, x) ∷ zs) end),
          out_ys,
          c.front,
        );
        not_null = c.not_null;
        at = c.at;
        back = c.back;
        out_front = ((λ e. out.0 (sym e)), c.out_front);
        out_back = c.out_back;
        apart = (out.1, c.apart);
      }

  pub Seg-append :
      (h : Heap A) (prev : ℕ) (ys zs : Cells A) (end : ℕ)
      → Seg h prev ys (first zs end)
      → Seg h (last prev ys) zs end
      → Disjoint ys zs
      → Seg h prev (ys ++ zs) end
  Seg-append h prev [] zs end s t d = t
  Seg-append h prev ((b, y) ∷ ys) zs end s t d = (
    s.0,
    s.1 ∙ ap (λ k. some (node k prev y)) (sym (first-append ys zs end)),
    All-append (λ c. c.0 ≢ b) ys zs s.2 d.0,
    Seg-append h b ys zs end s.3 t d.1,
  )

  -- The first cell behind a cut stands in no cell in front of it.
  pub Avoids-head :
      (ys : Cells A) (c : ℕ) (z : A) (zs : Cells A) → Disjoint ys ((c, z) ∷ zs) → Avoids c ys
  Avoids-head [] c z zs d = tt
  Avoids-head (b ∷ ys) c z zs d = ((λ e. d.0.0 (sym e)), Avoids-head ys c z zs d.1)
