-- ===== src/Refs.antt =====
-- apue.3e/threads/mutex2.c and mutex3.c: objects with a reference count in a hash table, shared by
-- threads. A function is what it does while it holds its locks; foo_rele of mutex2.c, which gives up
-- f_lock before it takes hashlock, is two parts.
pub mod Chain
pub mod Run
pub mod Invariant
pub mod Unlink
pub mod Find
pub mod Preserve
pub mod Good
pub mod Safety
pub mod Same
mod Tests
use apue.Prelude.{
  ℕ, zero, suc, ◌+◌, ◌-◌, ◌%◌, ◌^◌, Bool, true, false, Option, none, some, ◌==◌, if◌then◌else◌,
  update,
}
use apue.Prelude.Int.{ℤ, pos, negsuc, pos_part, neg_part}
use apue.Prelude.{◌&&◌}
use apue.Dll.{◌>>=◌}

-- struct foo without its lock.
pub record Foo : Type 0 where
  pub f_count : ℕ
  pub f_id : ℤ
  pub f_next : ℕ

-- The objects that are allocated, by address, and the table fh. NULL is 0.
pub record FooTable : Type 0 where
  pub heap : ℕ → Option Foo
  pub fh : ℕ → ℕ

-- HASH: the id as an unsigned long of 64 bits.
unfoldable pub hash : ℤ → ℕ
hash (pos k) = k % 29
hash (negsuc k) = (2 ^ 64 - 1 - k) % 29

-- `*fp`: none where C leaves it undefined.
abbrev pub load : (ℕ → Option Foo) → ℕ → Option Foo
load h p = if p == 0 then none else h p

abbrev pub write : (ℕ → Option Foo) → ℕ → Foo → ℕ → Option Foo
write h a f = update h a (some f)

abbrev pub same_id : ℤ → ℤ → Bool
same_id a b = pos_part a == pos_part b && neg_part a == neg_part b

-- foo_alloc, when malloc gives `fp` and pthread_mutex_init fails or not: the result and the table.
unfoldable pub foo_alloc : ℕ → Bool → ℤ → FooTable → ℕ × FooTable
foo_alloc zero init_fails id t = (0, t)
foo_alloc (suc a) true id t = (0, t)
foo_alloc (suc a) false id t = (
  suc a,
  record {
    heap = write t.heap (suc a) (record { f_count = 1; f_id = id; f_next = t.fh (hash id) });
    fh = update t.fh (hash id) (suc a);
  },
)

-- foo_hold
unfoldable pub foo_hold : ℕ → FooTable → Option FooTable
foo_hold fp t = do
  f ← load t.heap fp
  some (record t { heap = write t.heap fp (record f { f_count = f.f_count + 1 }) })

-- The loop of foo_find: the object with the id, or NULL.
unfoldable pub foo_loop : ℕ → ℕ → ℤ → (ℕ → Option Foo) → Option ℕ
foo_loop zero fp id h = none
foo_loop (suc fuel) zero id h = some 0
foo_loop (suc fuel) (suc a) id h = do
  f ← h (suc a)
  let rest = foo_loop fuel f.f_next id h in if same_id f.f_id id then some (suc a) else rest

unfoldable pub foo_find : ℕ → ℤ → FooTable → Option (ℕ × FooTable)
foo_find fuel id t = do
  fp ← foo_loop fuel (t.fh (hash id)) id t.heap
  if fp == 0 then some (0, t) else do t' ← foo_hold fp t; some (fp, t')

-- tfp->f_next = q where tfp->f_next is fp
unfoldable pub unlink_loop : ℕ → ℕ → ℕ → ℕ → (ℕ → Option Foo) → Option (ℕ → Option Foo)
unlink_loop zero tfp fp q h = none
unlink_loop (suc fuel) tfp fp q h = do
  f ← load h tfp
  let rest = unlink_loop fuel f.f_next fp q h in
      if f.f_next == fp then some (write h tfp (record f { f_next = q })) else rest

-- The object leaves the list of its bucket.
unfoldable pub unlink : ℕ → ℕ → Foo → FooTable → Option FooTable
unlink fuel fp f t = do
  let idx = hash f.f_id in
      if t.fh idx == fp
      then some (record t { fh = update t.fh idx f.f_next })
      else do h ← unlink_loop fuel (t.fh idx) fp f.f_next t.heap; some (record t { heap = h })

abbrev pub freed : ℕ → FooTable → FooTable
freed fp t = record t { heap = update t.heap fp none }

abbrev pub dropped : ℕ → Foo → FooTable → FooTable
dropped fp f t = record t { heap = write t.heap fp (record f { f_count = f.f_count - 1 }) }

-- foo_rele of mutex2.c up to its first release of f_lock: whether it goes on to hashlock.
unfoldable pub rele_first : ℕ → FooTable → Option (Bool × FooTable)
rele_first fp t = do
  f ← load t.heap fp
  if f.f_count == 1 then some (true, t) else some (false, dropped fp f t)

-- And from there, with both locks.
unfoldable pub rele_last : ℕ → ℕ → FooTable → Option FooTable
rele_last fuel fp t = do
  f ← load t.heap fp
  if f.f_count == 1 then (do t' ← unlink fuel fp f t; some (freed fp t')) else some (dropped fp f t)

-- foo_rele of mutex3.c
unfoldable pub foo_rele : ℕ → ℕ → FooTable → Option FooTable
foo_rele fuel fp t = do
  f ← load t.heap fp
  if f.f_count - 1 == 0
      then (do t' ← unlink fuel fp f (dropped fp f t); some (freed fp t'))
      else some (dropped fp f t)

-- foo_rele of mutex2.c when no other thread gets in between its two parts.
unfoldable pub rele_alone : ℕ → ℕ → FooTable → Option FooTable
rele_alone fuel fp t = do (last, u) ← rele_first fp t; if last then rele_last fuel fp u else some u
