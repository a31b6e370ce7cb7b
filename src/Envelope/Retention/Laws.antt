-- ===== src/Envelope/Retention/Laws.antt =====
-- Retention keeps the newest records, as many as the limit allows.
use Prim.Native.Nat.{min}
use workflow_plugin_signal.Base.{
  ℕ, ℤ, zero, suc, ◌≤◌, ◌<◌, ◌≤ℤ◌, ◌≡◌, sym, ap, ◌∙◌, true, false, ◌||◌, [], ltb, leb, ltb_ℤ, Str,
  Dict, length, remove, lookup, Distinct, str_eq, str_eq_iff, some, none, arith, inl, inr,
  Bool-cases, Option-cases, lookup-remove, length-remove, remove-Distinct,
}
use workflow_plugin_signal.Envelope.{EnvelopeRecord, Host, RangeLaws}
use workflow_plugin_signal.Envelope.Retention.{
  age_stamp, find_oldest, retention_loop, enforce_retention,
}
use workflow_plugin_signal.Envelope.Retention.Scan.{
  find_oldest_found, find_oldest_least, nonempty_of_lookup, some_entry,
}

not_newer : (a b : ℤ) → ltb_ℤ a b ≡ true → b ≤ℤ a → ⊥
not_newer a b newer le = ground arith

over_limit : (limit n : ℕ) → 0 < limit → limit < n → (leb limit 0 || leb n limit) ≡ false
over_limit limit n a b = ground arith

module _ (h : Host) (laws : RangeLaws h) where
  -- The entry that a round deletes.
  abbrev victim : ℕ → Dict EnvelopeRecord → Str
  victim n q = (find_oldest (h.range n q)).0

  victim_found :
      (n : ℕ) (q : Dict EnvelopeRecord)
      → Distinct q
      → 0 < length q
      → (r : EnvelopeRecord) × (lookup (victim n q) q ≡ some r)
        × ((find_oldest (h.range n q)).1 ≡ age_stamp r)
  victim_found n q d some_left =
      let (k, r, f) = some_entry q some_left in
      let (j, s, e, g) =
        find_oldest_found (h.range n q) (laws.range-Distinct n q d)
          (nonempty_of_lookup k r (h.range n q) (laws.lookup-range n q k d ∙ f)) in
      let at_j = ap (λ (x : Str × ℤ). x.0) e in
      let stamp = ap (λ (x : Str × ℤ). x.1) e in
      (s, rw at_j (sym (laws.lookup-range n q j d) ∙ g), stamp)

  -- It is in the queue, and no record of the queue is older.
  victim_oldest :
      (n : ℕ) (q : Dict EnvelopeRecord) (r : EnvelopeRecord) (j : Str) (s : EnvelopeRecord)
      → Distinct q
      → lookup [] q ≡ none
      → lookup (victim n q) q ≡ some r
      → lookup j q ≡ some s
      → age_stamp r ≤ℤ age_stamp s
  victim_oldest n q r j s d ne f g =
      let (r', f', e) = victim_found n q d (nonempty_of_lookup j s q g) in
      let same : r' ≡ r = ground arith in
      rw (← same, ← e)
        (find_oldest_least (h.range n q) j s (laws.lookup-range n q [] d ∙ ne)
          (laws.lookup-range n q j d ∙ g))

  loop-size :
      (fuel n limit : ℕ) (q : Dict EnvelopeRecord)
      → Distinct q
      → length q ≤ fuel
      → length (retention_loop h fuel n limit q) ≡ min (length q) limit
  unfolding retention_loop
  loop-size zero n limit q d le = omega arith
  loop-size (suc fuel) n limit q d le = elim (Bool-cases (ltb limit (length q))) [
    | inr done ↦ rw done (ground arith)
    | inl more ↦
        let (r, f, _) = victim_found n q d (ground arith) in
        let one = length-remove (victim n q) r q d f in
        let rest =
          loop-size fuel (suc n) limit (remove (victim n q) q) (remove-Distinct (victim n q) q d)
            (omega arith) in
        rw more (ground arith)
  ]

  -- What is kept is kept as it was.
  loop-kept :
      (fuel n limit : ℕ) (q : Dict EnvelopeRecord) (j : Str) (s : EnvelopeRecord)
      → lookup j (retention_loop h fuel n limit q) ≡ some s
      → lookup j q ≡ some s
  unfolding retention_loop
  loop-kept zero n limit q j s f = f
  loop-kept (suc fuel) n limit q j s f = ground (
    arith,
    loop-kept fuel (suc n) limit (remove (victim n q) q) j s,
    lookup-remove (victim n q) j q,
  )

  gone_stays_gone :
      (fuel n limit : ℕ) (q : Dict EnvelopeRecord) (j : Str)
      → lookup j q ≡ none
      → lookup j (retention_loop h fuel n limit q) ≡ none
  gone_stays_gone fuel n limit q j gone =
      elim (Option-cases (lookup j (retention_loop h fuel n limit q))) [
        | inl none_left ↦ none_left
        | inr (s, left) ↦ absurd (cc (loop-kept fuel n limit q j s left))
      ]

  -- What is evicted is no newer than what is kept.
  loop-evicts_oldest :
      (fuel n limit : ℕ) (q : Dict EnvelopeRecord) (k : Str) (r : EnvelopeRecord) (j : Str)
      (s : EnvelopeRecord)
      → Distinct q
      → lookup [] q ≡ none
      → lookup k q ≡ some r
      → lookup k (retention_loop h fuel n limit q) ≡ none
      → lookup j (retention_loop h fuel n limit q) ≡ some s
      → age_stamp r ≤ℤ age_stamp s
  unfolding retention_loop
  loop-evicts_oldest zero n limit q k r j s d ne f gone kept = cc
  loop-evicts_oldest (suc fuel) n limit q k r j s d ne f gone kept =
      elim (Bool-cases (ltb limit (length q))) [
        | inr done ↦ ground arith
        | inl more ↦
            let v = victim n q in
            let q' = remove v q in
            let kept' : lookup j (retention_loop h fuel (suc n) limit q') ≡ some s = ground arith in
            elim (Bool-cases (str_eq v k)) [
              | inl here ↦
                  let same : v ≡ k = (str_eq_iff v k).0 here in
                  let still = loop-kept fuel (suc n) limit q' j s kept' in
                  victim_oldest n q r j s d ne (rw same f) (ground (arith, lookup-remove v j q))
              | inr there ↦
                  loop-evicts_oldest fuel (suc n) limit q' k r j s (remove-Distinct v q d)
                    (ground (arith, lookup-remove v [] q)) (ground (arith, lookup-remove v k q))
                    (ground arith) kept'
            ]
      ]

  -- With a positive limit, a queue with one entry for a reference ends with as many records as
  -- the limit allows, or with all that it had if they are fewer; so the loop has ended by its
  -- test.
  pub length-enforce_retention :
      (limit : ℕ) (q : Dict EnvelopeRecord)
      → 0 < limit
      → Distinct q
      → length (enforce_retention h limit q) ≡ min (length q) limit
  unfolding enforce_retention
  length-enforce_retention limit q some_room d = ground (arith, loop-size (length q) 0 limit q d)

  pub enforce_retention-kept :
      (limit : ℕ) (q : Dict EnvelopeRecord) (j : Str) (s : EnvelopeRecord)
      → lookup j (enforce_retention h limit q) ≡ some s
      → lookup j q ≡ some s
  unfolding enforce_retention
  enforce_retention-kept limit q j s f = ground (arith, loop-kept (length q) 0 limit q j s)

  -- Retention evicts the oldest: of a queue with one entry for a reference and none for the
  -- empty one, a record that it removes is no newer than any that it keeps.
  pub enforce_retention-evicts_oldest :
      (limit : ℕ) (q : Dict EnvelopeRecord) (k : Str) (r : EnvelopeRecord) (j : Str)
      (s : EnvelopeRecord)
      → Distinct q
      → lookup [] q ≡ none
      → lookup k q ≡ some r
      → lookup k (enforce_retention h limit q) ≡ none
      → lookup j (enforce_retention h limit q) ≡ some s
      → age_stamp r ≤ℤ age_stamp s
  unfolding enforce_retention
  enforce_retention-evicts_oldest limit q k r j s d ne f gone kept =
      elim (Bool-cases (leb limit 0 || leb (length q) limit)) [
        | inl idle ↦ ground arith
        | inr busy ↦
            loop-evicts_oldest (length q) 0 limit q k r j s d ne f (ground arith) (ground arith)
      ]

  loop-Distinct :
      (fuel n limit : ℕ) (q : Dict EnvelopeRecord)
      → Distinct q
      → Distinct (retention_loop h fuel n limit q)
  unfolding retention_loop
  loop-Distinct zero n limit q d = d
  loop-Distinct (suc fuel) n limit q d =
      let d' = loop-Distinct fuel (suc n) limit (remove (victim n q) q) (remove-Distinct _ q d) in
      elim (Bool-cases (ltb limit (length q))) [ inl more ↦ rw more d' | inr done ↦ rw done d ]

  pub enforce_retention-Distinct :
      (limit : ℕ) (q : Dict EnvelopeRecord) → Distinct q → Distinct (enforce_retention h limit q)
  unfolding enforce_retention
  enforce_retention-Distinct limit q d = elim (Bool-cases (leb limit 0 || leb (length q) limit)) [
    | inl idle ↦ rw idle d
    | inr busy ↦ rw busy (loop-Distinct (length q) 0 limit q d)
  ]

  loop-drops_oldest :
      (fuel n limit : ℕ) (q : Dict EnvelopeRecord) (k : Str) (r : EnvelopeRecord)
      → limit < length q
      → length q ≤ fuel
      → Distinct q
      → lookup [] q ≡ none
      → lookup k q ≡ some r
      → ((j : Str) (s : EnvelopeRecord)
          → str_eq j k ≡ false
          → lookup j q ≡ some s
          → ltb_ℤ (age_stamp r) (age_stamp s) ≡ true)
      → lookup k (retention_loop h fuel n limit q) ≡ none
  unfolding retention_loop
  loop-drops_oldest zero n limit q k r over le d ne f newer = absurd (omega arith)
  loop-drops_oldest (suc fuel) n limit q k r over le d ne f newer =
      let v = victim n q in
      let (s, g, _) = victim_found n q d (omega arith) in
      let oldest = victim_oldest n q s k r d ne g f in
      let more : ltb limit (length q) ≡ true = ground arith in
      rw more (elim (Bool-cases (str_eq v k)) [
        | inl here ↦
            gone_stays_gone fuel (suc n) limit (remove v q) k (ground (arith, lookup-remove v k q))
        | inr other ↦ absurd (not_newer (age_stamp r) (age_stamp s) (newer v s other g) oldest)
      ])

  -- In a queue over its limit, a record that is older than every other is evicted.
  pub enforce_retention-drops_oldest :
      (limit : ℕ) (q : Dict EnvelopeRecord) (k : Str) (r : EnvelopeRecord)
      → 0 < limit
      → limit < length q
      → Distinct q
      → lookup [] q ≡ none
      → lookup k q ≡ some r
      → ((j : Str) (s : EnvelopeRecord)
          → str_eq j k ≡ false
          → lookup j q ≡ some s
          → ltb_ℤ (age_stamp r) (age_stamp s) ≡ true)
      → lookup k (enforce_retention h limit q) ≡ none
  unfolding enforce_retention
  enforce_retention-drops_oldest limit q k r some_room over d ne f newer =
      rw (over_limit limit (length q) some_room over)
        (loop-drops_oldest (length q) 0 limit q k r over (omega arith) d ne f newer)
