-- ===== src/Worker/Ensures.antt =====
-- What a coroutine makes of a state that has `P`: where it returns, `Q`; where it raises, `E`.
use agenyx.Runtime.Monad.{Exception, Attempt, returns, throws, Run, pure, settle, try, ◌>>=◌}

abbrev pub Post :
    {S A : Type 0} → (A → S → Type 0) → (Exception → S → Type 0) → Attempt A → S → Type 0
Post Q E (returns a) s = Q a s
Post Q E (throws e) s = E e s

pub record Ensures {S A : Type 0} (P : S → Type 0) (m : Run S A) (Q : A → S → Type 0)
    (E : Exception → S → Type 0) : Type 0 where
  pub at : (s : S) → P s → Post Q E (m s).0 (m s).1

module _ {S A : Type 0} (P : S → Type 0) (Q : A → S → Type 0) (E : Exception → S → Type 0) where
  pub Ensures-pure : (a : A) → ((s : S) → P s → Q a s) → Ensures P (pure a) Q E
  unfolding pure
  Ensures-pure a h = record { at = λ s p. h s p }

  pub Ensures-settle : (r : Attempt A) → ((s : S) → P s → Post Q E r s) → Ensures P (settle r) Q E
  unfolding settle
  Ensures-settle r h = record { at = λ s p. h s p }

  caught-Ensures :
      (F : Exception → S → Type 0) (handler : Exception → Run S A)
      → ((e : Exception) → Ensures (F e) (handler e) Q E)
      → (r : Attempt A) (s : S) → Post Q F r s
      → Post Q E (try (settle r) handler s).0 (try (settle r) handler s).1
  unfolding try settle
  caught-Ensures F handler kh (returns a) s p = p
  caught-Ensures F handler kh (throws e) s p = (kh e).at s p

  pub Ensures-try :
      (F : Exception → S → Type 0) (m : Run S A) (handler : Exception → Run S A)
      → Ensures P m Q F
      → ((e : Exception) → Ensures (F e) (handler e) Q E)
      → Ensures P (try m handler) Q E
  unfolding try settle
  Ensures-try F m handler km kh = record {
    at = λ s p. let (r, s') = m s in caught-Ensures F handler kh r s' (km.at s p);
  }

module _ {S A B : Type 0} (P : S → Type 0) (Q : A → S → Type 0) (R : B → S → Type 0)
    (E : Exception → S → Type 0) where
  after-Ensures :
      (f : A → Run S B)
      → ((a : A) → Ensures (Q a) (f a) R E)
      → (r : Attempt A) (s : S) → Post Q E r s
      → Post R E ((settle r >>= f) s).0 ((settle r >>= f) s).1
  unfolding ◌>>=◌ settle
  after-Ensures f kf (returns a) s p = (kf a).at s p
  after-Ensures f kf (throws e) s p = p

  pub Ensures-bind :
      (m : Run S A) (f : A → Run S B)
      → Ensures P m Q E
      → ((a : A) → Ensures (Q a) (f a) R E)
      → Ensures P (m >>= f) R E
  unfolding ◌>>=◌ settle
  Ensures-bind m f km kf = record {
    at = λ s p. let (r, s') = m s in after-Ensures f kf r s' (km.at s p);
  }

module _ {S A : Type 0} (P : S → Type 0) (Q Q' : A → S → Type 0)
    (E E' : Exception → S → Type 0) where
  weaken :
      ((a : A) (s : S) → Q a s → Q' a s)
      → ((e : Exception) (s : S) → E e s → E' e s)
      → (r : Attempt A) (s : S) → Post Q E r s
      → Post Q' E' r s
  weaken h k (returns a) s p = h a s p
  weaken h k (throws e) s p = k e s p

  pub Ensures-weaken :
      (P' : S → Type 0) (m : Run S A)
      → ((s : S) → P' s → P s)
      → ((a : A) (s : S) → Q a s → Q' a s)
      → ((e : Exception) (s : S) → E e s → E' e s)
      → Ensures P m Q E
      → Ensures P' m Q' E'
  Ensures-weaken P' m g h k km = record { at = λ s p. weaken h k (m s).0 (m s).1 (km.at s (g s p)) }
