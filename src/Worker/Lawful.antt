-- ===== src/Worker/Lawful.antt =====
-- What the worker relies on in a Valkey server: the effects of the commands on its hashes, on the
-- messages that a group has not acknowledged, and on the entries of its streams.
use agenyx.Base.{
  ◌≡◌, Bool, false, Option, none, some, String, List, [], ◌∷◌, ◌++◌, lookup, string_eq, ◌==◌,
  if◌then◌else◌,
}
use agenyx.Worker.{Valkey, Payload}
use agenyx.Runtime.Monad.{returns}

-- a field of a hash after `hset`
abbrev pub or_else : Option String → Option String → Option String
or_else none old = old
or_else (some value) old = some value

-- `hash s k f` is the field `f` of the hash `k`, `waiting s t g i` whether the message `i` of the
-- stream `t` is among those delivered to the group `g` and not acknowledged, and `entries s t` the
-- payloads of the stream `t`. A command that raises may have had its effect or not.
pub record IsLawful (V : Valkey) : Type 0 where
  pub hash : V.State → String → String → Option String
  pub waiting : V.State → String → String → String → Bool
  pub entries : V.State → String → List Payload
  -- reading changes nothing, and what it returns is the field
  pub hget-same : (k f : String) (s : V.State) → (V.hget k f s).1 ≡ s
  pub hget-returns :
      (k f : String) (s : V.State) (v : Option String)
      → (V.hget k f s).0 ≡ returns v
      → v ≡ hash s k f
  pub hset-hash :
      (k : String) (m : Payload) (s : V.State)
      → (V.hset k m s).0 ≡ returns tt
      → (j f : String)
      → hash (V.hset k m s).1 j f
        ≡ (if k == j then or_else (lookup f m) (hash s j f) else hash s j f)
  pub hset-waiting :
      (k : String) (m : Payload) (s : V.State) (t g i : String)
      → waiting (V.hset k m s).1 t g i ≡ waiting s t g i
  pub hset-entries :
      (k : String) (m : Payload) (s : V.State) (t : String)
      → entries (V.hset k m s).1 t ≡ entries s t
  pub xadd-hash :
      (t : String) (m : Payload) (s : V.State) (k f : String)
      → hash (V.xadd t m s).1 k f ≡ hash s k f
  pub xadd-waiting :
      (t : String) (m : Payload) (s : V.State) (u g i : String)
      → waiting (V.xadd t m s).1 u g i ≡ waiting s u g i
  pub xadd-entries :
      (t : String) (m : Payload) (s : V.State) (id : String)
      → (V.xadd t m s).0 ≡ returns id
      → entries (V.xadd t m s).1 t ≡ entries s t ++ m ∷ []
  pub xack-hash :
      (t g i : String) (s : V.State) (k f : String) → hash (V.xack t g i s).1 k f ≡ hash s k f
  pub xack-entries :
      (t g i : String) (s : V.State) (u : String) → entries (V.xack t g i s).1 u ≡ entries s u
  pub xack-waiting :
      (t g i : String) (s : V.State)
      → (V.xack t g i s).0 ≡ returns tt
      → waiting (V.xack t g i s).1 t g i ≡ false

-- no command raises
pub record IsReliable (V : Valkey) : Type 0 where
  pub hget : (k f : String) (s : V.State) → (v : Option String) × ((V.hget k f s).0 ≡ returns v)
  pub hset : (k : String) (m : Payload) (s : V.State) → (V.hset k m s).0 ≡ returns tt
  pub xadd :
      (t : String) (m : Payload) (s : V.State) → (id : String) × ((V.xadd t m s).0 ≡ returns id)
  pub xack : (t g i : String) (s : V.State) → (V.xack t g i s).0 ≡ returns tt
