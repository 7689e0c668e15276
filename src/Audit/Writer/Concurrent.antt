-- ===== src/Audit/Writer/Concurrent.antt =====
-- Several writers of one chain: what a transaction's statements do when they interleave with other
-- writers' statements, the advisory lock included.
use airport_inspection_platf.Prelude.Json.{Json}
use airport_inspection_platf.Audit.Chain.{ChainEntry, HashableAuditEntry, genesis_prev_hash}
use airport_inspection_platf.Audit.Writer.{
  chained, chained-IsLinked, prev_hash_of, prev_hash_of-tip,
}
use airport_inspection_platf.Prelude.{
  Bool-cases, List, Option, String, [], arith, if◌then◌else◌, inl, inr, none, refl, some, subst,
  sym, ℕ, ◌++◌, ◌==◌, ◌∷◌, ◌≡◌, ◌≢◌,
}
use airport_inspection_platf.Audit.Chain.Links.{IsChain, IsChain-append, IsLinked, tip}

-- How far a writer's `append` has come.
pub data Phase : Type 0 where
  idle : Phase
  waiting : HashableAuditEntry → Phase
  locked : HashableAuditEntry → Phase
  selected : String → HashableAuditEntry → Phase
  inserted : ChainEntry → Phase

-- The committed rows, as they were inserted, the session that owns the advisory lock, and each session's phase.
pub record Sessions : Type 0 where
  pub rows : List ChainEntry
  pub owner : Option ℕ
  pub phase : ℕ → Phase

abbrev pub enter : ℕ → Phase → (ℕ → Phase) → ℕ → Phase
enter w p phase v = if v == w then p else phase v

module _ (sha256 : String → String) (stringify : Json → String) where
  -- One statement of one session. `pg_advisory_xact_lock` waits until no transaction owns the
  -- lock, and the end of the transaction gives it back; a statement reads the committed rows.
  pub data Step : Sessions → Sessions → Type 0 where
    begin :
        (w : ℕ) (e : HashableAuditEntry) {s : Sessions}
        → s.phase w ≡ idle
        → Step s (record s { phase = enter w (waiting e) s.phase })
    lock :
        (w : ℕ) (e : HashableAuditEntry) {s : Sessions}
        → s.phase w ≡ waiting e
        → s.owner ≡ none
        → Step s (record s { owner = some w; phase = enter w (locked e) s.phase })
    select :
        (w : ℕ) (e : HashableAuditEntry) {s : Sessions}
        → s.phase w ≡ locked e
        → Step s (record s { phase = enter w (selected (prev_hash_of s.rows) e) s.phase })
    insert :
        (w : ℕ) (prev : String) (e : HashableAuditEntry) {s : Sessions}
        → s.phase w ≡ selected prev e
        → Step s (record s { phase = enter w (inserted (chained sha256 stringify prev e)) s.phase })
    commit :
        (w : ℕ) (e : ChainEntry) {s : Sessions}
        → s.phase w ≡ inserted e
        → Step s (record s { rows = s.rows ++ e ∷ []; owner = none; phase = enter w idle s.phase })
    rollback_waiting :
        (w : ℕ) (e : HashableAuditEntry) {s : Sessions}
        → s.phase w ≡ waiting e
        → Step s (record s { phase = enter w idle s.phase })
    rollback :
        (w : ℕ) {s : Sessions}
        → s.owner ≡ some w
        → Step s (record s { owner = none; phase = enter w idle s.phase })

  pub data Reachable (start : Sessions) : Sessions → Type 0 where
    here : Reachable start start
    after : {s t : Sessions} → Reachable start s → Step s t → Reachable start t

enter-All :
    (P : ℕ → Phase → Type 0) (w : ℕ) (p : Phase) (phase : ℕ → Phase)
    → P w p
    → ((v : ℕ) → v ≢ w → P v (phase v))
    → (v : ℕ) → P v (enter w p phase v)
enter-All P w p phase h k v = elim (Bool-cases (v == w)) [
  | inl t ↦ let e : v ≡ w = ground arith in rw (t, e) h
  | inr t ↦ let n : v ≢ w = ground arith in rw t (k v n)
]

module _ (sha256 : String → String) (stringify : Json → String) where
  -- What holds of a session in a phase, by who owns the lock and which rows are committed.
  abbrev pub AtPhase : Option ℕ → List ChainEntry → ℕ → Phase → Type 0
  AtPhase owner rows w idle = owner ≢ some w
  AtPhase owner rows w (waiting e) = owner ≢ some w
  AtPhase owner rows w (locked e) = owner ≡ some w
  AtPhase owner rows w (selected prev e) = (owner ≡ some w) × (prev ≡ tip genesis_prev_hash rows)
  AtPhase owner rows w (inserted e) =
      (owner ≡ some w) × IsLinked sha256 stringify (tip genesis_prev_hash rows) e

  pub record IsSound (s : Sessions) : Type 0 where
    pub chain : IsChain sha256 stringify genesis_prev_hash s.rows
    pub phases : (w : ℕ) → AtPhase s.owner s.rows w (s.phase w)

  passive :
      (o o' : Option ℕ) (rows rows' : List ChainEntry) (v : ℕ) (p : Phase)
      → o ≢ some v
      → o' ≢ some v
      → AtPhase o rows v p
      → AtPhase o' rows' v p
  passive o o' rows rows' v idle n m h = m
  passive o o' rows rows' v (waiting e) n m h = m
  passive o o' rows rows' v (locked e) n m h = absurd (n h)
  passive o o' rows rows' v (selected prev e) n m h = absurd (n h.0)
  passive o o' rows rows' v (inserted e) n m h = absurd (n h.0)

  other : (v w : ℕ) (o : Option ℕ) → o ≡ some w → v ≢ w → o ≢ some v
  other v w o h n k = n (cc)

  unowned : (v : ℕ) (o : Option ℕ) → o ≡ none → o ≢ some v
  unowned v o h k = absurd (cc)

  abbrev at :
      {s : Sessions} → IsSound s → (w : ℕ) (p : Phase) → s.phase w ≡ p → AtPhase s.owner s.rows w p
  at {s} i w p h = subst (AtPhase s.owner s.rows w) h (i.phases w)

  pub Step-IsSound : {s t : Sessions} → Step sha256 stringify s t → IsSound s → IsSound t
  Step-IsSound (begin w e {s} h) i = record {
    chain = i.chain;
    phases =
        enter-All (AtPhase s.owner s.rows) w (waiting e) s.phase (at i w idle h)
          (λ v n. i.phases v);
  }
  Step-IsSound (lock w e {s} h k) i = record {
    chain = i.chain;
    phases = enter-All (AtPhase (some w) s.rows) w (locked e) s.phase refl (λ v n.
        passive s.owner (some w) s.rows s.rows v (s.phase v) (unowned v s.owner k)
          (other v w (some w) refl n) (i.phases v));
  }
  Step-IsSound (select w e {s} h) i = record {
    chain = i.chain;
    phases =
        enter-All (AtPhase s.owner s.rows) w (selected (prev_hash_of s.rows) e) s.phase
          (at i w (locked e) h, prev_hash_of-tip sha256 stringify s.rows) (λ v n. i.phases v);
  }
  Step-IsSound (insert w prev e {s} h) i =
      let a = at i w (selected prev e) h in
      record {
        chain = i.chain;
        phases =
            enter-All (AtPhase s.owner s.rows) w (inserted (chained sha256 stringify prev e))
              s.phase
              (
                a.0,
                subst (λ p. IsLinked sha256 stringify p (chained sha256 stringify prev e)) a.1
                    (chained-IsLinked sha256 stringify prev e),
              )
              (λ v n. i.phases v);
      }
  Step-IsSound (commit w e {s} h) i =
      let a = at i w (inserted e) h in
      record {
        chain = IsChain-append sha256 stringify genesis_prev_hash s.rows e i.chain a.1;
        phases =
            enter-All (AtPhase none (s.rows ++ e ∷ [])) w idle s.phase (unowned w none refl) (λ v n.
              passive s.owner none s.rows (s.rows ++ e ∷ []) v (s.phase v) (other v w s.owner a.0 n)
                (unowned v none refl) (i.phases v));
      }
  Step-IsSound (rollback_waiting w e {s} h) i = record {
    chain = i.chain;
    phases =
        enter-All (AtPhase s.owner s.rows) w idle s.phase (at i w (waiting e) h)
          (λ v n. i.phases v);
  }
  Step-IsSound (rollback w {s} h) i = record {
    chain = i.chain;
    phases = enter-All (AtPhase none s.rows) w idle s.phase (unowned w none refl) (λ v n.
        passive s.owner none s.rows s.rows v (s.phase v) (other v w s.owner h n)
          (unowned v none refl) (i.phases v));
  }

  pub Reachable-IsSound :
      {start s : Sessions} → Reachable sha256 stringify start s → IsSound start → IsSound s
  Reachable-IsSound here i = i
  Reachable-IsSound (after r step) i = Step-IsSound step (Reachable-IsSound r i)

  -- However the statements of any number of writers interleave, from a table whose inserted rows form
  -- one chain and no session under way: at every moment the committed rows, as they were inserted, form
  -- one chain, each naming the hash of the row before it and carrying the hash of that and of its own
  -- values, so that no two writers ever continue from the same row.
  pub reachable-IsChain :
      (start s : Sessions)
      → IsChain sha256 stringify genesis_prev_hash start.rows
      → start.owner ≡ none
      → ((w : ℕ) → start.phase w ≡ idle)
      → Reachable sha256 stringify start s
      → IsChain sha256 stringify genesis_prev_hash s.rows
  reachable-IsChain start s h free quiet r =
      let sound = Reachable-IsSound r (record {
        chain = h;
        phases = λ w.
            subst (AtPhase start.owner start.rows w) (sym (quiet w)) (unowned w start.owner free);
      }) in
      sound.chain
