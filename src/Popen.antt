-- ===== src/Popen.antt =====
-- apue.3e/lib/popen.c (and apue.3e/ipc1/popen.c, the same text): popen and pclose with their table of
-- children. The results of the system calls are arguments.
pub mod Close
pub mod Tests
use apue.Prelude.{
  ℕ, zero, suc, ◌≡◌, Bool, true, false, not, ◌||◌, List, [], ◌∷◌, ◌++◌, Option, none, some, ◌==◌,
  leb, if◌then◌else◌, length, set, replicate, get_elem?,
}
use apue.Prelude.Int.{ℤ, pos, negsuc}
use apue.Text.{Bytes}

-- What the system calls of popen give: open_max, whether calloc gives memory, the two ends of the pipe,
-- fork's result where it is neither 0 nor an error, and whether fdopen gives a stream.
pub record Calls : Type 0 where
  pub open_max : ℕ
  pub calloc : Bool
  pub pipe : Option (ℕ × ℕ)
  pub fork : Option ℕ
  pub fdopen : Bool

-- childpid, none for NULL; maxfd is its length.
abbrev pub Table : Type 0
Table = Option (List ℕ)

-- The modes "r" and "w"; none is EINVAL.
unfoldable pub reads : Bytes → Option Bool
reads (c ∷ []) = if c == b'r' then some true else if c == b'w' then some false else none
reads _ = none

abbrev pub allocate : Calls → Table → Table
allocate k (some t) = some t
allocate k none = if k.calloc then some (replicate k.open_max 0) else none

-- popen in the parent, with the table allocated: the stream's descriptor, the descriptors that are
-- closed, and the table.
unfoldable pub popen_parent : Calls → Bool → List ℕ → Option ℕ × List ℕ × List ℕ
popen_parent k r t = elim (k.pipe) [
  | none ↦ (none, [], t)
  | some (rd, wr) ↦
      let mine = if r then rd else wr in
      let other = if r then wr else rd in
      if leb (length t) rd || leb (length t) wr then (none, rd ∷ wr ∷ [], t) else elim (k.fork) [
        | none ↦ (none, [], t)
        | some pid ↦
            if k.fdopen then (some mine, other ∷ [], set t mine pid) else (none, other ∷ [], t)
      ]
]

unfoldable pub popen : Calls → Bytes → Table → Option ℕ × List ℕ × Table
popen k type t = elim (reads type) [
  | none ↦ (none, [], t)
  | some r ↦ elim (allocate k t) [
    | none ↦ (none, [], none)
    | some c ↦ let p = popen_parent k r c in (p.0, p.1, some (p.2))
  ]
]

-- What the child does between fork and execl.
pub data Act : Type 0 where
  close : ℕ → Act
  dup2 : ℕ → ℕ → Act

-- The loop over childpid from descriptor `i` on.
unfoldable pub close_children : ℕ → List ℕ → List Act
close_children i [] = []
close_children i (pid ∷ t) =
    let rest = close_children (suc i) t in if pid == 0 then rest else close i ∷ rest

unfoldable pub popen_child : Bool → ℕ × ℕ → List ℕ → List Act
popen_child true (rd, wr) t =
    (close rd ∷ (if wr == 1 then [] else dup2 wr 1 ∷ close wr ∷ [])) ++ close_children 0 t
popen_child false (rd, wr) t =
    (close wr ∷ (if rd == 0 then [] else dup2 rd 0 ∷ close rd ∷ [])) ++ close_children 0 t

-- What waitpid returns.
pub data Wait : Type 0 where
  status : ℤ → Wait
  eintr other : Wait

-- What pclose returns.
pub data Return : Type 0 where
  stat : ℤ → Return
  einval failed : Return

-- The loop of pclose, over the results of waitpid in order; none where they end.
unfoldable pub wait_loop : List Wait → Option Return
wait_loop [] = none
wait_loop (status s ∷ ws) = some (stat s)
wait_loop (eintr ∷ ws) = wait_loop ws
wait_loop (other ∷ ws) = some failed

-- pclose of a stream on descriptor `fd`; `done` is whether fclose succeeds.
unfoldable pub pclose : ℕ → Bool → List Wait → Table → Option Return × Table
pclose fd done ws none = (some einval, none)
pclose fd done ws (some t) = elim (get_elem? t fd) [
  | none ↦ (some einval, some t)
  | some zero ↦ (some einval, some t)
  | some (suc pid) ↦ (if done then wait_loop ws else some failed, some (set t fd 0))
]
