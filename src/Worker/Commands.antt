-- ===== src/Worker/Commands.antt =====
-- Commands of the client and readings of the environment, as steps of the worker's coroutines.
use agenyx.Base.{ℕ}
use agenyx.Worker.{Valkey, Session, on_store, read_next}
use agenyx.Worker.Ensures.{Post, Ensures}
use agenyx.Runtime.Monad.{Attempt, returns, throws, Run}

module _ (V : Valkey) where
  stored :
      {A : Type 0} (Q : A → V.State → Type 0) (E : V.State → Type 0) (s : Session V)
      → (r : Attempt A) (t : V.State) → Post Q (λ _. E) r t
      → Post (λ a (x : Session V). Q a x.store) (λ _ x. E x.store) r (record s { store = t })
  stored Q E s (returns a) t h = h
  stored Q E s (throws e) t h = h

  -- a command, by what it does to the server
  pub on_store-Ensures :
      {A : Type 0} (P : V.State → Type 0) (Q : A → V.State → Type 0) (E : V.State → Type 0)
      (m : Run V.State A)
      → ((t : V.State) → P t → Post Q (λ _. E) (m t).0 (m t).1)
      → Ensures
          (λ (s : Session V). P s.store)
          (on_store V m)
          (λ a s. Q a s.store)
          (λ _ s. E s.store)
  unfolding on_store
  on_store-Ensures P Q E m h = record {
    at = λ s p. stored Q E s (m s.store).0 (m s.store).1 (h s.store p);
  }

  pub both :
      {A : Type 0} (P : V.State → Type 0) (r : Attempt A) (t : V.State)
      → P t
      → Post (λ _. P) (λ _. P) r t
  both P (returns a) t h = h
  both P (throws e) t h = h

  -- a command that keeps a property of the server
  pub keeps-Ensures :
      {A : Type 0} (P : V.State → Type 0) (m : Run V.State A)
      → ((t : V.State) → P t → P (m t).1)
      → Ensures (λ (s : Session V). P s.store) (on_store V m) (λ _ s. P s.store) (λ _ s. P s.store)
  keeps-Ensures P m h = on_store-Ensures P (λ _. P) P m λ t p. both P (m t).0 (m t).1 (h t p)

  pub read_next-Ensures :
      {A : Type 0} (P : V.State → Type 0) (f : ℕ → A)
      → Ensures (λ (s : Session V). P s.store) (read_next V f) (λ _ s. P s.store) (λ _ s. P s.store)
  unfolding read_next
  read_next-Ensures P f = record { at = λ s p. p }
