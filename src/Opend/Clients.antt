-- ===== src/Opend/Clients.antt =====
-- client_add and the entries of the client table.
use mathlib.Core.Option
use apue.Prelude.{
  ℕ, zero, suc, ◌≡◌, refl, sym, ap, ◌∙◌, Bool, true, false, ◌||◌, List, [], ◌∷◌, ◌++◌, Option, none,
  some, arith, get_elem?, replicate, Bool-cases, ◌⊎◌, inl, inr,
}
use apue.Prelude.Int.{ℤ, negsuc}
use apue.Opend.{Client, same_fd, unused, nalloc, client_alloc, place, client_add}

-- An entry that a client has.
abbrev pub InUse : Client → Type 0
InUse c = same_fd c.fd (negsuc 0) ≡ false

-- An entry took the client, and the clients of `t` keep their entries.
abbrev pub Placed : ℤ → ℕ → List Client → Option (ℕ × List Client) → Type 0
Placed fd uid t none = ⊥
Placed fd uid t (some (i, t')) =
    (get_elem? t' i ≡ some (record { fd = fd; uid = some uid }))
    × ((j : ℕ) (c : Client) → get_elem? t j ≡ some c → InUse c → get_elem? t' j ≡ some c)

has_free : List Client → Bool
has_free [] = false
has_free (c ∷ t) = same_fd c.fd (negsuc 0) || has_free t

module _ (fd : ℤ) (uid : ℕ) where
  place-behind :
      (c : Client) (t : List Client) (r : Option (ℕ × List Client))
      → Placed fd uid t r
      → Placed fd uid (c ∷ t) (Option.map (λ (p : ℕ × List Client). (suc p.0, c ∷ p.1)) r)
  place-behind c t none h = h
  place-behind c t (some (i, t')) (at, keep) = (at, kept)
    where
      kept :
          (j : ℕ) (d : Client)
          → get_elem? (c ∷ t) j ≡ some d
          → InUse d
          → get_elem? (c ∷ t') j ≡ some d
      kept zero d e u = e
      kept (suc j) d e u = keep j d e u

  place-front :
      (c : Client) (t : List Client)
      → same_fd c.fd (negsuc 0) ≡ true
      → Placed fd uid (c ∷ t) (some (0, record { fd = fd; uid = some uid } ∷ t))
  place-front c t h = (refl, kept)
    where
      kept :
          (j : ℕ) (d : Client)
          → get_elem? (c ∷ t) j ≡ some d
          → InUse d
          → get_elem? (record { fd = fd; uid = some uid } ∷ t) j ≡ some d
      kept zero d e u =
          let free : true ≡ false =
            sym h ∙ ap (λ o. elim o [ none ↦ true | some x ↦ same_fd x.fd (negsuc 0) ]) e ∙ u in
          absurd (cc)
      kept (suc j) d e u = e

  place-Placed : (t : List Client) → has_free t ≡ true → Placed fd uid t (place fd uid t)
  unfolding place has_free
  place-Placed [] h = absurd (ground arith)
  place-Placed (c ∷ t) h = elim (Bool-cases (same_fd c.fd (negsuc 0))) [
    | inl y ↦ rw y (place-front c t y)
    | inr n ↦ rw n (place-behind c t (place fd uid t) (place-Placed t (rw n at h)))
  ]

  place-full : (t : List Client) → has_free t ≡ false → place fd uid t ≡ none
  unfolding place has_free
  place-full [] h = refl
  place-full (c ∷ t) h = elim (Bool-cases (same_fd c.fd (negsuc 0))) [
    | inl y ↦ absurd (ground arith)
    | inr n ↦ rw (n, place-full t (rw n at h)) refl
  ]

has_free-append : (t r : List Client) → has_free (t ++ unused ∷ r) ≡ true
unfolding has_free same_fd
has_free-append [] r = refl
has_free-append (c ∷ t) r = ground (arith, has_free-append t r)

get_elem?-append :
    {A : Type 0} (t r : List A) (j : ℕ) (c : A)
    → get_elem? t j ≡ some c
    → get_elem? (t ++ r) j ≡ some c
get_elem?-append [] r j c e = absurd (cc)
get_elem?-append (x ∷ t) r zero c e = e
get_elem?-append (x ∷ t) r (suc j) c e = get_elem?-append t r j c e

-- The entries of the array, none before the first call.
abbrev pub entries : Option (List Client) → List Client
entries none = []
entries (some t) = t

Placed-nil :
    (fd : ℤ) (uid : ℕ) (t : List Client) (r : Option (ℕ × List Client))
    → Placed fd uid t r
    → Placed fd uid [] r
Placed-nil fd uid t none h = h
Placed-nil fd uid t (some p) h = (h.0, λ j c e u. absurd (cc))

Placed-append :
    (fd : ℤ) (uid : ℕ) (t r : List Client) (o : Option (ℕ × List Client))
    → Placed fd uid (t ++ r) o
    → Placed fd uid t o
Placed-append fd uid t r none h = h
Placed-append fd uid t r (some p) h = (h.0, λ j c e u. h.1 j c (get_elem?-append t r j c e) u)

some-Placed : (fd : ℤ) (uid : ℕ) (t : List Client) → Placed fd uid t (client_add fd uid (some t))
unfolding client_add client_alloc
some-Placed fd uid t = elim (Bool-cases (has_free t)) [
  | inl y ↦ go (place fd uid t) (inl (place-Placed fd uid t y))
  | inr n ↦ go (place fd uid t) (inr (place-full fd uid t n))
]
  where
    more : Placed fd uid t (place fd uid (t ++ replicate nalloc unused))
    more =
        Placed-append fd uid t (replicate nalloc unused)
          (place fd uid (t ++ replicate nalloc unused))
          (place-Placed fd uid (t ++ replicate nalloc unused) (has_free-append t _))

    go :
        (r : Option (ℕ × List Client))
        → Placed fd uid t r ⊎ (r ≡ none)
        → Placed fd uid t
            (elim r [ some p ↦ some p | none ↦ place fd uid (t ++ replicate nalloc unused) ])
    go none h = more
    go (some p) (inl h) = h
    go (some p) (inr e) = absurd (cc)

-- client_add always finds an entry, in the array as it is or in the array after one client_alloc:
-- the entry holds the client, and every client that had an entry keeps it.
pub client_add-Placed :
    (fd : ℤ) (uid : ℕ) (t : Option (List Client))
    → Placed fd uid (entries t) (client_add fd uid t)
      × ((client_add fd uid t ≡ place fd uid (entries t))
          ⊎ (client_add fd uid t ≡ place fd uid (client_alloc t)))
unfolding client_add client_alloc place same_fd
client_add-Placed fd uid none = (
  Placed-nil fd uid (replicate nalloc unused) (client_add fd uid (some (replicate nalloc unused)))
      (some-Placed fd uid (replicate nalloc unused)),
  inr refl,
)
client_add-Placed fd uid (some t) = (some-Placed fd uid t, go (place fd uid t))
  where
    go :
        (r : Option (ℕ × List Client))
        → ((elim r [ some p ↦ some p | none ↦ place fd uid (t ++ replicate nalloc unused) ]) ≡ r)
          ⊎ ((elim r [ some p ↦ some p | none ↦ place fd uid (t ++ replicate nalloc unused) ])
              ≡ place fd uid (t ++ replicate nalloc unused))
    go none = inr refl
    go (some p) = inl refl
