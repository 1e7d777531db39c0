-- ===== src/Opend/Tests.antt =====
-- The open server at concrete clients.
use apue.Prelude.{
  ℕ, ◌+◌, ◌≡◌, refl, ◌⊎◌, false, List, [], ◌∷◌, Option, none, some, arith, get_elem?, replicate,
}
use apue.Prelude.Int.{ℤ, pos}
use apue.Opend.{
  Client, Server, unused, same_fd, client_alloc, place, client_add, client_del, pack, hungup, serve,
  serve_all,
}
use apue.Opend.Clients.{Placed, client_add-Placed}
use apue.Opend.Uids.{Entry, gone, asking, serve-uid_of_other}

abbrev client : ℕ → Client
client n = record { fd = pos n; uid = some (1000 + n) }

-- The listening descriptor 3, and clients on 4, 5 and 6; the one on 5 hangs up, the one on 6 asks.
abbrev server : Server
server = record {
  pollfd =
      record { fd = pos 3; hup = false; inp = false }
      ∷ record { fd = pos 4; hup = false; inp = false }
      ∷ gone (pos 5) false
      ∷ asking (pos 6)
      ∷ [];
  clients = client 3 ∷ client 4 ∷ client 5 ∷ client 6 ∷ replicate 6 unused;
  handled = [];
  closed = [];
}

five-Entry : Entry (pos 5) 2 (client 5) server.clients
unfolding same_fd
five-Entry = record { at = refl; same = refl; first = (refl, (refl, tt)) }

client_add-Placed_example :
    Placed (pos 7) 0 (client 3 ∷ []) (client_add (pos 7) 0 (some (client 3 ∷ [])))
    × ((client_add (pos 7) 0 (some (client 3 ∷ [])) ≡ place (pos 7) 0 (client 3 ∷ []))
        ⊎ (client_add (pos 7) 0 (some (client 3 ∷ []))
            ≡ place (pos 7) 0 (client_alloc (some (client 3 ∷ [])))))
client_add-Placed_example = client_add-Placed (pos 7) 0 (some (client 3 ∷ []))

serve-uid_of_other_example :
    (s1 : Server) × (s2 : Server) × (serve (λ fd. pos 9) 2 (gone (pos 5) false) server
      ≡ some (2, s1))
    × (get_elem? s1.pollfd 2 ≡ some (asking (pos 6)))
    × (serve (λ fd. pos 9) 2 (asking (pos 6)) s1 ≡ some (3, s2))
    × (s2.handled ≡ (pos 6, some 1005) ∷ [])
serve-uid_of_other_example =
    serve-uid_of_other (λ fd. pos 9) 2 8 (pos 5) (pos 6) false (client 5) server five-Entry
      (omega arith) refl refl

abbrev handled : Option Server → Option (List (ℤ × Option ℕ) × List ℤ)
handled none = none
handled (some s) = some (s.handled, s.closed)

-- The whole round.
round_runs :
    handled (serve_all 9 (λ fd. pos 9) 1 server) ≡ some ((pos 6, some 1005) ∷ [], pos 5 ∷ [])
unfolding serve_all serve hungup client_del same_fd pack
round_runs = refl
