-- ===== src/Idempotency/Safety.antt =====
-- Each change of the shared store keeps the callers safe.
use agenyx.Base.{
  ℕ, ◌+◌, ◌≡◌, ◌≢◌, ◌∙◌, refl, sym, true, false, none, some, String, string_eq, lookup, elem,
  nat_eq, nat_beq, nat_beq_iff, lookup-insert, elem-add, elem-discard, ==_refl, arith,
  if◌then◌else◌, Bool-cases, inl, inr,
}
use agenyx.Idempotency.{IdempotencyStore, claim, put, release}
use agenyx.Idempotency.Race.{Stage, running, served, failed, System, set_stage, IsSafe}

module _ {R : Type 0} where
  -- A caller moves on without the store: not to run, and to return only what is recorded.
  pub set_stage-IsSafe :
      (key : String) (i : ℕ) (st : Stage R) (s : System R)
      → st ≢ running
      → ((r : R) → st ≡ served r → lookup key s.store.records ≡ some r)
      → IsSafe key s
      → IsSafe key (set_stage i st s)
  set_stage-IsSafe key i st s idle fair v = record {
    alone = λ a b ra rb. v.alone a b (before a ra) (before b rb);
    holds = λ a ra. v.holds a (before a ra);
    open_yet = v.open_yet;
    honest = λ a r ra. elim (Bool-cases (nat_beq a i)) [
      | inl e ↦ fair r (rw e at ra)
      | inr e ↦ v.honest a r (rw e at ra)
    ];
    counted = v.counted;
  }
    where
      before : (a : ℕ) → (if nat_beq a i then st else s.callers a) ≡ running → s.callers a ≡ running
      before a h = elim (Bool-cases (nat_beq a i)) [
        | inl e ↦ absurd (idle (rw e at h))
        | inr e ↦ rw e at h
      ]

  claimed_lem :
      (key : String) (s : IdempotencyStore R)
      → ((claim key s).0 ≡ true)
      → (elem key s.claimed ≡ false)
        × (lookup key s.records ≡ none)
        × (elem key (claim key s).1.claimed ≡ true)
        × ((claim key s).1.records ≡ s.records)
  unfolding claim
  claimed_lem key s h = ground (arith, elem-add key key s.claimed, ==_refl key)

  pub refused_lem :
      (key : String) (s : IdempotencyStore R) → (claim key s).0 ≡ false → (claim key s).1 ≡ s
  unfolding claim
  refused_lem key s h = ground arith

  put_lem :
      (key : String) (r : R) (s : IdempotencyStore R)
      → (lookup key (put key r s).records ≡ some r) × (elem key (put key r s).claimed ≡ false)
  unfolding put
  put_lem key r s =
      ground (arith, lookup-insert key key r s.records, elem-discard key key s.claimed, ==_refl key)

  release_lem :
      (key : String) (s : IdempotencyStore R)
      → ((release key s).records ≡ s.records) × (elem key (release key s).claimed ≡ false)
  unfolding release
  release_lem key s = ground (arith, elem-discard key key s.claimed, ==_refl key)

  module _ (key : String) (i : ℕ) (s : System R) (v : IsSafe key s) where
    -- Nobody runs while the key is not claimed.
    idle_unclaimed : elem key s.store.claimed ≡ false → (j : ℕ) → s.callers j ≢ running
    idle_unclaimed free j h = cc (v.holds j h)

    pub claim-IsSafe :
        (claim key s.store).0 ≡ true
        → IsSafe key (set_stage i running (record s { store = (claim key s.store).1 }))
    claim-IsSafe got =
        let (free, bare, held, kept) = claimed_lem key s.store got in
        record {
          alone = λ a b ra rb. only a ra free ∙ sym (only b rb free);
          holds = λ a ra. held;
          open_yet = λ h. rw kept bare;
          honest = λ a r ra. rw kept (others a r ra);
          counted = rw kept v.counted;
        }
      where
        only :
            (a : ℕ)
            → (if nat_beq a i then running else s.callers a) ≡ running
            → elem key s.store.claimed ≡ false
            → a ≡ i
        only a h free = elim (Bool-cases (nat_beq a i)) [
          | inl e ↦ (nat_beq_iff a i).0 e
          | inr e ↦ absurd (idle_unclaimed free a (rw e at h))
        ]

        others :
            (a : ℕ) (r : R)
            → (if nat_beq a i then running else s.callers a) ≡ served r
            → lookup key s.store.records ≡ some r
        others a r h = elim (Bool-cases (nat_beq a i)) [
          | inl e ↦ cc (rw e at h)
          | inr e ↦ v.honest a r (rw e at h)
        ]

    -- While a caller runs there is no record, so nobody is served.
    none_served : s.callers i ≡ running → (j : ℕ) (r : R) → s.callers j ≢ served r
    none_served runs j r h = cc (v.honest j r h, v.open_yet (v.holds i runs))

    pub put-IsSafe :
        (r : R)
        → s.callers i ≡ running
        → IsSafe key (
            set_stage i
              (served r)
              (record s { store = put key r s.store; executions = s.executions + 1 }))
    put-IsSafe r runs =
        let (recorded, freed) = put_lem key r s.store in
        record {
          alone = λ a b ra rb. absurd (nobody a ra);
          holds = λ a ra. absurd (nobody a ra);
          open_yet = λ h. cc;
          honest = λ a q ra. same a q ra recorded;
          counted = rw recorded (omega (arith, none_counted));
        }
      where
        nobody : (a : ℕ) → (if nat_beq a i then served r else s.callers a) ≢ running
        nobody a h = elim (Bool-cases (nat_beq a i)) [
          | inl e ↦ cc (rw e at h)
          | inr e ↦ cc (rw (v.alone a i (rw e at h) runs) at e, (nat_beq_iff i i).1 refl)
        ]

        same :
            (a : ℕ) (q : R)
            → (if nat_beq a i then served r else s.callers a) ≡ served q
            → lookup key (put key r s.store).records ≡ some r
            → lookup key (put key r s.store).records ≡ some q
        same a q h recorded = elim (Bool-cases (nat_beq a i)) [
          | inl e ↦ cc (rw e at h)
          | inr e ↦ absurd (none_served runs a q (rw e at h))
        ]

        none_counted : s.executions ≡ 0
        none_counted = v.counted ∙ rw (v.open_yet (v.holds i runs))

    pub release-IsSafe :
        (r : R)
        → s.callers i ≡ running
        → IsSafe key (set_stage i (failed r) (record s { store = release key s.store }))
    release-IsSafe r runs =
        let (kept, freed) = release_lem key s.store in
        record {
          alone = λ a b ra rb. absurd (nobody a ra);
          holds = λ a ra. absurd (nobody a ra);
          open_yet = λ h. cc;
          honest = λ a q ra. absurd (none_back a q ra);
          counted = rw kept v.counted;
        }
      where
        nobody : (a : ℕ) → (if nat_beq a i then failed r else s.callers a) ≢ running
        nobody a h = elim (Bool-cases (nat_beq a i)) [
          | inl e ↦ cc (rw e at h)
          | inr e ↦ cc (rw (v.alone a i (rw e at h) runs) at e, (nat_beq_iff i i).1 refl)
        ]

        none_back : (a : ℕ) (q : R) → (if nat_beq a i then failed r else s.callers a) ≢ served q
        none_back a q h = elim (Bool-cases (nat_beq a i)) [
          | inl e ↦ cc (rw e at h)
          | inr e ↦ none_served runs a q (rw e at h)
        ]
