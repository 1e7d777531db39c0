-- ===== src/Refs/Chain.antt =====
-- The list of a bucket, as a list of addresses.
use apue.Prelude.{
  ℕ, zero, suc, ◌<◌, ◌≡◌, ◌≢◌, refl, sym, ap, subst, ◌∙◌, ◌⊎◌, inl, inr, true, false, List, [], ◌∷◌,
  ◌++◌, Option, none, some, some_inj, arith, ◌==◌, All-cut, Lacks, length, update_cases, update_ne,
  update_self,
}
use apue.Refs.{Foo, load, write, hash, unlink_loop}

-- The addresses of the list at `p`, of objects whose ids belong to bucket `i`; none twice.
abbrev pub Chain : (ℕ → Option Foo) → ℕ → ℕ → List ℕ → Type 0
Chain h i p [] = p ≡ 0
Chain h i p (a ∷ xs) =
    (p ≡ a)
    × (a ≢ 0)
    × Lacks a xs
    × (f : Foo) × (h a ≡ some f)
    × (hash f.f_id ≡ i)
    × Chain h i f.f_next xs

abbrev pub Has : ℕ → List ℕ → Type 0
Has a [] = ⊥
Has a (b ∷ xs) = (b ≡ a) ⊎ Has a xs

pub load-some : (h : ℕ → Option Foo) (a : ℕ) (f : Foo) → a ≢ 0 → h a ≡ some f → load h a ≡ some f
load-some h a f nz e = ground arith

pub Has-split :
    (a : ℕ) (xs : List ℕ) → Has a xs → (ys : List ℕ) × (zs : List ℕ) × (xs ≡ ys ++ a ∷ zs)
Has-split a [] m = absurd m
Has-split a (b ∷ xs) (inl e) = ([], xs, ap (λ c. c ∷ xs) e)
Has-split a (b ∷ xs) (inr m) = let (ys, zs, e) = Has-split a xs m in (b ∷ ys, zs, ap (λ l. b ∷ l) e)

pub Lacks-Has : (a b : ℕ) (xs : List ℕ) → Lacks a xs → Has b xs → b ≢ a
Lacks-Has a b [] l m = absurd m
Lacks-Has a b (c ∷ xs) l (inl e) = λ d. l.0 (e ∙ d)
Lacks-Has a b (c ∷ xs) l (inr m) = Lacks-Has a b xs l.1 m

-- A list is the same on a heap that has its objects.
pub Chain-same :
    (h k : ℕ → Option Foo) (i p : ℕ) (xs : List ℕ)
    → ((a : ℕ) → Has a xs → k a ≡ h a)
    → Chain h i p xs
    → Chain k i p xs
Chain-same h k i p [] same c = c
Chain-same h k i p (a ∷ xs) same (e, nz, l, f, at, home, c) = (
  e,
  nz,
  l,
  f,
  same a (inl refl) ∙ at,
  home,
  Chain-same h k i f.f_next xs (λ b m. same b (inr m)) c,
)

-- An object of the list is there, and belongs to the bucket.
pub Chain-Has :
    (h : ℕ → Option Foo) (i p : ℕ) (xs : List ℕ) (a : ℕ)
    → Chain h i p xs
    → Has a xs
    → (a ≢ 0) × (f : Foo) × (h a ≡ some f) × (hash f.f_id ≡ i)
Chain-Has h i p [] a c m = absurd m
Chain-Has h i p (b ∷ xs) a (e, nz, l, f, at, home, c) (inl same) =
    subst (λ d. (d ≢ 0) × (f : Foo) × (h d ≡ some f) × (hash f.f_id ≡ i)) same (nz, f, at, home)
Chain-Has h i p (b ∷ xs) a (e, nz, l, f, at, home, c) (inr m) = Chain-Has h i f.f_next xs a c m

-- A write that keeps the link and the id of an object.
pub Chain-write :
    (h : ℕ → Option Foo) (i p : ℕ) (xs : List ℕ) (q : ℕ) (f g : Foo)
    → h q ≡ some f
    → g.f_id ≡ f.f_id
    → g.f_next ≡ f.f_next
    → Chain h i p xs
    → Chain (write h q g) i p xs
Chain-write h i p [] q f g there same link c = c
Chain-write h i p (a ∷ xs) q f g there same link (e, nz, l, f', at, home, c) =
    elim (update_cases h q (some g) a) [
      | inl (aq, v) ↦
          let ff : f' ≡ f = some_inj.0 (sym at ∙ (ap h aq ∙ there)) in
          (
            e,
            nz,
            l,
            g,
            v,
            ap hash same ∙ (ap (λ x. hash x.f_id) (sym ff) ∙ home),
            subst (λ x. Chain (write h q g) i x xs) (ap (λ x. x.f_next) ff ∙ sym link)
                (Chain-write h i f'.f_next xs q f g there same link c),
          )
      | inr (ne, v) ↦
          (e, nz, l, f', v ∙ at, home, Chain-write h i f'.f_next xs q f g there same link c)
    ]

pub Has-middle : (a : ℕ) (ys zs : List ℕ) → Has a (ys ++ a ∷ zs)
Has-middle a [] zs = inl refl
Has-middle a (y ∷ ys) zs = inr (Has-middle a ys zs)

pub Has-front : (a : ℕ) (ys zs : List ℕ) → Has a ys → Has a (ys ++ zs)
Has-front a [] zs m = absurd m
Has-front a (y ∷ ys) zs (inl e) = inl e
Has-front a (y ∷ ys) zs (inr m) = inr (Has-front a ys zs m)

pub eq_true : (a b : ℕ) → a ≡ b → (a == b) ≡ true
eq_true a b e = ground arith

pub eq_false : (a b : ℕ) → a ≢ b → (a == b) ≡ false
eq_false a b ne = ground arith

-- What the loop of foo_rele leaves: the object in front is linked to the one behind.
pub record Unlinked (h : ℕ → Option Foo) (i p a n : ℕ) (ys zs : List ℕ)
    (o : Option (ℕ → Option Foo)) : Type 0 where
  pub spot : ℕ
  pub front : Foo
  pub in_front : Has spot ys
  pub there : h spot ≡ some front
  pub done : o ≡ some (write h spot (record front { f_next = n }))
  pub chain : Chain (write h spot (record front { f_next = n })) i p (ys ++ zs)

pub Chain-back :
    (h : ℕ → Option Foo) (i p : ℕ) (ys : List ℕ) (a : ℕ) (zs : List ℕ) (f : Foo)
    → Chain h i p (ys ++ a ∷ zs)
    → h a ≡ some f
    → Chain h i f.f_next zs
Chain-back h i p [] a zs f (e, nz, l, f', at, home, c) there =
    subst (λ x. Chain h i x.f_next zs) (some_inj.0 (sym at ∙ there)) c
Chain-back h i p (y ∷ ys) a zs f (e, nz, l, f', at, home, c) there =
    Chain-back h i f'.f_next ys a zs f c there

pub unlink_loop-Unlinked :
    (h : ℕ → Option Foo) (i p y : ℕ) (ys : List ℕ) (a : ℕ) (zs : List ℕ) (f : Foo) (fuel : ℕ)
    → Chain h i p (y ∷ ys ++ a ∷ zs)
    → h a ≡ some f
    → (length ys < fuel) ⊎ (unlink_loop fuel p a f.f_next h ≢ none)
    → Unlinked h i p a f.f_next (y ∷ ys) zs (unlink_loop fuel p a f.f_next h)
unfolding unlink_loop
unlink_loop-Unlinked h i p y ys a zs f zero c there (inl lt) = absurd (omega arith)
unlink_loop-Unlinked h i p y ys a zs f zero c there (inr ends) = absurd (ends refl)
unlink_loop-Unlinked h i p y [] a zs f (suc fuel) (e, nz, l, g, at, home, c) there lt =
    subst (λ x. Unlinked h i x a f.f_next (y ∷ []) zs (unlink_loop (suc fuel) x a f.f_next h))
      (sym e)
      (record {
        spot = y;
        front = g;
        in_front = inl refl;
        there = at;
        done = rw (load-some h y g nz at, eq_true g.f_next a c.0) refl;
        chain = (
          refl,
          nz,
          l.1,
          record g { f_next = f.f_next },
          update_self h y (some (record g { f_next = f.f_next })),
          home,
          Chain-same h (write h y (record g { f_next = f.f_next })) i f.f_next zs
              (λ b m. update_ne h y _ b (Lacks-Has y b zs l.1 m))
              (Chain-back h i g.f_next [] a zs f c there),
        );
      })
unlink_loop-Unlinked h i p y (y' ∷ ys) a zs f (suc fuel) (e, nz, l, g, at, home, c) there lt =
    let ahead = Lacks-Has y' a (ys ++ a ∷ zs) c.2 (Has-middle a ys zs) in
    let goes : unlink_loop (suc fuel) p a f.f_next h ≡ unlink_loop fuel g.f_next a f.f_next h =
      rw (e, load-some h y g nz at, eq_false g.f_next a (λ d. ahead (sym d ∙ c.0))) refl in
    let r =
      unlink_loop-Unlinked h i g.f_next y' ys a zs f fuel c there
        (elim lt [ inl l ↦ inl (omega arith) | inr ends ↦ inr (λ d. ends (goes ∙ d)) ]) in
    let apart =
      Lacks-Has y r.spot (y' ∷ ys ++ a ∷ zs) l (Has-front r.spot (y' ∷ ys) (a ∷ zs) r.in_front) in
    subst (λ x. Unlinked h i x a f.f_next (y ∷ y' ∷ ys) zs (unlink_loop (suc fuel) x a f.f_next h))
      (sym e)
      (record {
        spot = r.spot;
        front = r.front;
        in_front = inr r.in_front;
        there = r.there;
        done = rw (load-some h y g nz at, eq_false g.f_next a (λ d. ahead (sym d ∙ c.0))) r.done;
        chain = (
          refl,
          nz,
          All-cut (λ b. b ≢ y) (y' ∷ ys) a zs l,
          g,
          update_ne h r.spot _ y (λ d. apart (sym d)) ∙ at,
          home,
          r.chain,
        );
      })

pub Has-cut : (a b : ℕ) (ys zs : List ℕ) → b ≢ a → Has b (ys ++ a ∷ zs) → Has b (ys ++ zs)
Has-cut a b [] zs ne (inl e) = absurd (ne (sym e))
Has-cut a b [] zs ne (inr m) = m
Has-cut a b (y ∷ ys) zs ne (inl e) = inl e
Has-cut a b (y ∷ ys) zs ne (inr m) = inr (Has-cut a b ys zs ne m)

-- An object of a chain stands in it once.
pub Lacks-cut :
    (h : ℕ → Option Foo) (i p : ℕ) (ys : List ℕ) (a : ℕ) (zs : List ℕ)
    → Chain h i p (ys ++ a ∷ zs)
    → Lacks a (ys ++ zs)
Lacks-cut h i p [] a zs (e, nz, l, f, at, home, c) = l
Lacks-cut h i p (y ∷ ys) a zs (e, nz, l, f, at, home, c) = (
  λ d. Lacks-Has y a (ys ++ a ∷ zs) l (Has-middle a ys zs) (sym d),
  Lacks-cut h i f.f_next ys a zs c,
)
