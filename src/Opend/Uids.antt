-- ===== src/Opend/Uids.antt =====
-- The entries of pollfd and of the client table after a client hung up.
use apue.Prelude.{
  ℕ, zero, suc, ◌-◌, ◌<◌, ◌≡◌, refl, sym, ap, ◌∙◌, Bool, true, false, List, [], ◌∷◌, none, some,
  arith, ltb, get_elem?, get_elem?-set_self, length, set, subst, take, All,
}
use apue.Prelude.Int.{ℤ, pos, negsuc}
use apue.Opend.{Client, PollFd, Server, same_fd, client_del, pack, hungup, serve, uid_at}

-- Entry `i` is the first of the descriptor.
pub record Entry (fd : ℤ) (i : ℕ) (c : Client) (t : List Client) : Type 0 where
  pub at : get_elem? t i ≡ some c
  pub same : same_fd c.fd fd ≡ true
  pub first : All (λ d. same_fd d.fd fd ≡ false) (take i t)

client_del-set :
    (fd : ℤ) (i : ℕ) (c : Client) (t : List Client)
    → Entry fd i c t
    → client_del fd t ≡ some (set t i (record c { fd = negsuc 0 }))
unfolding client_del
client_del-set fd i c [] e = absurd (let impossible = e.at in cc)
client_del-set fd zero c (d ∷ t) e =
    let it : c ≡ d = sym (ap (λ o. elim o [ none ↦ d | some x ↦ x ]) e.at) in
    subst (λ x. client_del fd (x ∷ t) ≡ some (record c { fd = negsuc 0 } ∷ t)) it (rw e.same refl)
client_del-set fd (suc i) c (d ∷ t) e =
    rw (e.first.0, client_del-set fd i c t (record { at = e.at; same = e.same; first = e.first.1 }))
      refl

get_elem?-take :
    {A : Type 0} (n i : ℕ) (xs : List A) → i < n → get_elem? (take n xs) i ≡ get_elem? xs i
get_elem?-take zero i xs h = absurd (omega arith)
get_elem?-take (suc n) i [] h = refl
get_elem?-take (suc n) zero (x ∷ xs) h = refl
get_elem?-take (suc n) (suc i) (x ∷ xs) h = get_elem?-take n i xs (omega arith)

in_range : {A : Type 0} (i : ℕ) (xs : List A) (c : A) → get_elem? xs i ≡ some c → i < length xs
in_range i [] c e = absurd (cc)
in_range zero (x ∷ xs) c e = omega arith
in_range (suc i) (x ∷ xs) c e = let h = in_range i xs c e in omega arith

-- The last entry takes the place of an earlier one.
pack-last :
    (i : ℕ) (ps : List PollFd) (q : PollFd)
    → i < length ps - 1
    → get_elem? ps (length ps - 1) ≡ some q
    → get_elem? (pack i ps) i ≡ some q
unfolding pack
pack-last i ps q h e =
    let earlier : ltb i (length ps - 1) ≡ true = ground arith in
    rw (e, pack)
      (rw earlier
        (get_elem?-take (length ps - 1) i (set ps i q) h ∙ get_elem?-set_self ps i q (omega arith)))

-- A client that hung up, and one that sent a request.
abbrev pub gone : ℤ → Bool → PollFd
gone fd inp = record { fd = fd; hup = true; inp = inp }

abbrev pub asking : ℤ → PollFd
asking fd = record { fd = fd; hup = false; inp = true }

module _ (nread : ℤ → ℤ) (i n : ℕ) (fd last : ℤ) (inp : Bool) (c : Client) (s : Server)
    (e : Entry fd i c s.clients) (early : i < length s.pollfd - 1)
    (end : get_elem? s.pollfd (length s.pollfd - 1) ≡ some (asking last))
    (sent : nread last ≡ pos (suc n)) where
  abbrev left : Server
  left = record s {
    clients = set s.clients i (record c { fd = negsuc 0 });
    closed = fd ∷ s.closed;
    pollfd = pack i s.pollfd;
  }

  hungup_lem : hungup i (gone fd inp) s ≡ some left
  unfolding hungup
  hungup_lem = rw (client_del-set fd i c s.clients e, hungup) refl

  serve-left : serve nread i (gone fd inp) s ≡ some (i, left)
  unfolding serve
  serve-left =
      let earlier : ltb i (length s.pollfd - 1) ≡ true = ground arith in
      rw hungup_lem (rw earlier refl)

  -- When a client hangs up that is not the last one polled, the last one takes its place in
  -- pollfd, and the loop, which looks at that place again, handles the last client's request with
  -- the uid of the client that hung up.
  pub serve-uid_of_other :
      (s1 : Server) × (s2 : Server) × (serve nread i (gone fd inp) s ≡ some (i, s1))
      × (get_elem? s1.pollfd i ≡ some (asking last))
      × (serve nread i (asking last) s1 ≡ some (suc i, s2))
      × (s2.handled ≡ (last, c.uid) ∷ s.handled)
  unfolding serve
  serve-uid_of_other = (
    left,
    record left { handled = (last, uid_at i left.clients) ∷ s.handled },
    serve-left,
    pack-last i s.pollfd (asking last) early end,
    rw sent refl,
    rw
        (
          get_elem?-set_self s.clients i (record c { fd = negsuc 0 }) (in_range i s.clients c e.at),
          uid_at,
        )
        refl,
  )
