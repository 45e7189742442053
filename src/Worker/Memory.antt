-- ===== src/Worker/Memory.antt =====
-- A server in memory that never fails: it meets what the worker relies on.
use agenyx.Base.{
  ◌≡◌, refl, sym, ◌∙◌, Bool, true, false, Option, none, some, String, List, [], ◌∷◌, ◌++◌, Dict,
  lookup, insert, erase, contains, lookup-insert, lookup-erase, string_eq, pair_eq, ◌==◌, ==_refl,
  if◌then◌else◌, ◌&&◌, arith, ap,
}
use agenyx.Worker.{Valkey, Payload}
use agenyx.Worker.Lawful.{IsLawful, IsReliable, or_else}
use agenyx.Runtime.Monad.{Attempt, returns, throws}

pub record Server : Type 0 where
  pub hashes : Dict (String × String) String
  pub pending : Dict (String × (String × String)) Payload
  pub streams : Dict String (List Payload)

abbrev value_or : {A : Type 0} → A → Attempt A → A
value_or x (returns a) = a
value_or x (throws e) = x

abbrev or_empty : Option (List Payload) → List Payload
or_empty none = []
or_empty (some l) = l

-- the fields of a mapping, under one key
abbrev write_all : String → Payload → Dict (String × String) String → Dict (String × String) String
write_all k [] d = d
write_all k ((f, v) ∷ m) d = insert (k, f) v (write_all k m d)

abbrev pub memory : Valkey
memory = record {
  State = Server;
  hget = λ k f s. (returns (lookup (k, f) s.hashes), s);
  hset = λ k m s. (returns tt, record s { hashes = write_all k m s.hashes });
  xadd = λ t m s. (
    returns "0-1",
    record s { streams = insert t (or_empty (lookup t s.streams) ++ m ∷ []) s.streams },
  );
  xack = λ t g i s. (returns tt, record s { pending = erase (t, (g, i)) s.pending });
  xgroup_create = λ t g s. (returns tt, s);
  xreadgroup = λ t g x s. (returns [], s);
  xautoclaim = λ t g x idle count s. (returns none, s);
}

if_both :
    (a b : Bool) (v : String) (x y : Option String)
    → (if a && b then some v else (if a then or_else x y else y))
      ≡ (if a then or_else (if b then some v else x) y else y)
if_both true true v x y = refl
if_both true false v x y = refl
if_both false b v x y = refl

pub lookup-write_all :
    (k : String) (m : Payload) (d : Dict (String × String) String) (j f : String)
    → lookup (j, f) (write_all k m d)
      ≡ (if k == j then or_else (lookup f m) (lookup (j, f) d) else lookup (j, f) d)
unfolding lookup
lookup-write_all k [] d j f = ground arith
lookup-write_all k ((g, v) ∷ m) d j f =
    lookup-insert (j, f) (k, g) v (write_all k m d)
    ∙ rw (lookup-write_all k m d j f) (if_both (k == j) (g == f) v (lookup f m) (lookup (j, f) d))

pub returned : {A : Type 0} {x y : A} → returns x ≡ returns y → x ≡ y
returned {A} {x} h = ap (value_or x) h

pub erased :
    (k : String × (String × String)) (d : Dict (String × (String × String)) Payload)
    → contains k (erase k d) ≡ false
erased k d = rw (lookup-erase k k d, ==_refl k) refl

pub memory-IsReliable : IsReliable memory
memory-IsReliable = record {
  hget = λ k f s. (lookup (k, f) s.hashes, refl);
  hset = λ k m s. refl;
  xadd = λ t m s. ("0-1", refl);
  xack = λ t g i s. refl;
}

unfoldable pub memory-IsLawful : IsLawful memory
memory-IsLawful = record {
  hash = λ s k f. lookup (k, f) s.hashes;
  waiting = λ s t g i. contains (t, (g, i)) s.pending;
  entries = λ s t. or_empty (lookup t s.streams);
  hget-same = λ k f s. refl;
  hget-returns = λ k f s v h. returned (sym h);
  hset-hash = λ k m s h j f. lookup-write_all k m s.hashes j f;
  hset-waiting = λ k m s t g i. refl;
  hset-entries = λ k m s t. refl;
  xadd-hash = λ t m s k f. refl;
  xadd-waiting = λ t m s u g i. refl;
  xadd-entries = λ t m s id h.
      rw (lookup-insert t t (or_empty (lookup t s.streams) ++ m ∷ []) s.streams, ==_refl t) refl;
  xack-hash = λ t g i s k f. refl;
  xack-entries = λ t g i s u. refl;
  xack-waiting = λ t g i s h. erased (t, (g, i)) s.pending;
}
