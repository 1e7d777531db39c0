-- ===== src/Opend.antt =====
-- apue.3e/ipc2/opend: the open server, its client table (client.c) and its poll loop (loop.poll.c).
pub mod Clients
pub mod Uids
pub mod Requests
pub mod Tests
use mathlib.Core.Option
use apue.Prelude.{
  ℕ, zero, suc, ◌+◌, ◌-◌, ◌≡◌, Bool, true, false, ◌||◌, ◌&&◌, not, List, [], ◌∷◌, ◌++◌, Option,
  none, some, ◌==◌, ltb, leb, if◌then◌else◌, length, take, set, replicate, get_elem?,
}
use apue.Prelude.Int.{ℤ, pos, negsuc}

-- Descriptors are equal.
unfoldable pub same_fd : ℤ → ℤ → Bool
same_fd (pos a) (pos b) = a == b
same_fd (negsuc a) (negsuc b) = a == b
same_fd _ _ = false

-- `Client`; the uid of an entry that was never used is what malloc left there, none here.
pub record Client : Type 0 where
  pub fd : ℤ
  pub uid : Option ℕ

-- fd == -1
abbrev pub unused : Client
unused = record { fd = negsuc 0; uid = none }

abbrev pub nalloc : ℕ
nalloc = 10

-- client_alloc, with memory given. The array is none for NULL; its length is client_size.
unfoldable pub client_alloc : Option (List Client) → List Client
client_alloc none = replicate nalloc unused
client_alloc (some t) = t ++ replicate nalloc unused

-- The search of client_add: the first available entry takes the client.
unfoldable pub place : ℤ → ℕ → List Client → Option (ℕ × List Client)
place fd uid [] = none
place fd uid (c ∷ t) =
    let rest = Option.map (λ (r : ℕ × List Client). (suc r.0, c ∷ r.1)) (place fd uid t) in
    if same_fd c.fd (negsuc 0) then some (0, record { fd = fd; uid = some uid } ∷ t) else rest

-- client_add: a search, and one more after client_alloc; none would be a second `goto again`.
unfoldable pub client_add : ℤ → ℕ → Option (List Client) → Option (ℕ × List Client)
client_add fd uid t =
    let first : List Client = elim t [ none ↦ client_alloc none | some c ↦ c ] in
    elim (place fd uid first) [ some r ↦ some r | none ↦ place fd uid (client_alloc (some first)) ]

-- client_del; none is log_quit.
unfoldable pub client_del : ℤ → List Client → Option (List Client)
client_del fd [] = none
client_del fd (c ∷ t) =
    let rest = Option.map (λ (r : List Client). c ∷ r) (client_del fd t) in
    if same_fd c.fd fd then some (record c { fd = negsuc 0 } ∷ t) else rest

-- `struct pollfd`: the descriptor, and POLLHUP and POLLIN of revents.
pub record PollFd : Type 0 where
  pub fd : ℤ
  pub hup : Bool
  pub inp : Bool

-- The entries of pollfd below numfd, the clients, the requests that were handled with the uid that
-- each was handled for, and the descriptors that were closed.
pub record Server : Type 0 where
  pub pollfd : List PollFd
  pub clients : List Client
  pub handled : List (ℤ × Option ℕ)
  pub closed : List ℤ

-- The entry is overwritten by the last one, and the last one is dropped.
unfoldable pub pack : ℕ → List PollFd → List PollFd
pack i ps =
    let n = length ps - 1 in
    elim (get_elem? ps n) [ none ↦ ps | some p ↦ take n (if ltb i n then set ps i p else ps) ]

-- From the label hungup on.
unfoldable pub hungup : ℕ → PollFd → Server → Option Server
hungup i p s = elim (client_del p.fd s.clients) [
  | none ↦ none
  | some t ↦ some (record s { clients = t; closed = p.fd ∷ s.closed; pollfd = pack i s.pollfd })
]

-- client[i].uid
abbrev pub uid_at : ℕ → List Client → Option ℕ
uid_at i t = elim (get_elem? t i) [ none ↦ none | some c ↦ c.uid ]

-- One round of the loop over the clients at entry `i`: the entry to go on with, and the server.
-- `nread` is what read returns for the descriptor; none is a call of log_sys or log_quit.
unfoldable pub serve : (ℤ → ℤ) → ℕ → PollFd → Server → Option (ℕ × Server)
serve nread i p s =
    let gone =
      Option.map (λ (s' : Server). (if ltb i (length s.pollfd - 1) then i else suc i, s'))
        (hungup i p s) in
    if p.hup
    then gone
    else if p.inp
    then elim (nread p.fd) [
      | negsuc _ ↦ none
      | pos zero ↦ gone
      | pos (suc n) ↦ some (suc i, record s { handled = (p.fd, uid_at i s.clients) ∷ s.handled })
    ]
    else some (suc i, s)

-- The loop over the clients: each round handles an entry or removes one, so that as many rounds as
-- there are entries are enough.
unfoldable pub serve_all : ℕ → (ℤ → ℤ) → ℕ → Server → Option Server
serve_all zero nread i s = if leb (length s.pollfd) i then some s else none
serve_all (suc fuel) nread i s = elim (get_elem? s.pollfd i) [
  | none ↦ some s
  | some p ↦ elim (serve nread i p s) [ none ↦ none | some (j, s') ↦ serve_all fuel nread j s' ]
]

-- A new client: the accepted descriptor joins both tables.
unfoldable pub accept : ℤ → ℕ → Server → Option Server
accept clifd uid s = elim (client_add clifd uid (some s.clients)) [
  | none ↦ none
  | some (i, t) ↦ some (record s {
    clients = t;
    pollfd = s.pollfd ++ record { fd = clifd; hup = false; inp = false } ∷ [];
  })
]
