-- ===== src/Service/Ceremony/Replay.antt =====
-- A consent is claimed once until it expires.
use workflow_plugin_signal.Base.{
  ℤ, subst, ◌≡◌, refl, false, Option, none, some, List, [], ◌∷◌, arith, leb_ℤ, Str, str_eq,
  str_eq_iff, str_eq_refl, Distinct, lookup, lookup-insert, insert-Distinct, Result, ok, err, after,
  Bool-cases, Option-cases, inl, inr,
}
use workflow_plugin_signal.Service.Ceremony.{
  LinkedDeviceCeremony, Error, consent_replay, Claims, check_ceremony, drop_expired, take_claim,
  validate_linked_device_ceremony,
}

lookup-drop_absent :
    (now : ℤ) (k : Str) (m : Claims) → lookup k m ≡ none → lookup k (drop_expired now m) ≡ none
unfolding lookup drop_expired
lookup-drop_absent now k [] h = refl
lookup-drop_absent now k ((j, e) ∷ m) h = ground (arith, lookup-drop_absent now k m)

-- A claim that has not expired stays.
lookup-drop_live :
    (now : ℤ) (k : Str) (e : ℤ) (m : Claims)
    → Distinct m
    → leb_ℤ e now ≡ false
    → lookup k m ≡ some e
    → lookup k (drop_expired now m) ≡ some e
unfolding lookup drop_expired
lookup-drop_live now k e [] d live f = cc
lookup-drop_live now k e ((j, x) ∷ m) d live f = elim (Bool-cases (str_eq j k)) [
  | inl here ↦ let same : x ≡ e = ground arith in rw (same, live) (rw here)
  | inr other ↦ ground (arith, lookup-drop_live now k e m d.1 live)
]

drop_expired-Distinct : (now : ℤ) (m : Claims) → Distinct m → Distinct (drop_expired now m)
unfolding drop_expired
drop_expired-Distinct now [] d = tt
drop_expired-Distinct now ((j, x) ∷ m) d =
    ground (arith, lookup-drop_absent now j m d.0, drop_expired-Distinct now m d.1)

-- The claim on a consent is held, in a map with one entry for a key.
pub record IsClaimed (consent : Str) (expires : ℤ) (claims : Claims) : Type 0 where
  pub distinct : Distinct claims
  pub held : lookup consent claims ≡ some expires

take_claim-IsClaimed :
    (c : LinkedDeviceCeremony) (m : Claims) (k : Str) (e : ℤ)
    → IsClaimed k e m
    → IsClaimed k e (take_claim c (lookup c.consent_ref m) m).1
unfolding take_claim
take_claim-IsClaimed c m k e v = elim (Option-cases (lookup c.consent_ref m)) [
  | inl free ↦
      rw (free, take_claim)
        (record {
          distinct = insert-Distinct c.consent_ref c.consent_expires_unix m v.distinct;
          held = ground (
            arith,
            v.held,
            str_eq_iff c.consent_ref k,
            lookup-insert c.consent_ref k c.consent_expires_unix m,
          );
        })
  | inr (x, taken) ↦ rw (taken, take_claim) v
]

-- Before a claim expires no call removes or changes it.
validate-IsClaimed :
    (now : ℤ) (ceremony : Option LinkedDeviceCeremony) (m : Claims) (k : Str) (e : ℤ)
    → leb_ℤ e now ≡ false
    → IsClaimed k e m
    → IsClaimed k e (validate_linked_device_ceremony now ceremony m).1
unfolding validate_linked_device_ceremony
validate-IsClaimed now ceremony m k e live v = at (check_ceremony now ceremony)
  where
    at :
        (r : Result Error LinkedDeviceCeremony)
        → IsClaimed k e
            (after r
              (λ c m'.
                take_claim c (lookup c.consent_ref (drop_expired now m')) (drop_expired now m'))
              m).1
    at (err x) = v
    at (ok c) = take_claim-IsClaimed c (drop_expired now m) k e (record {
      distinct = drop_expired-Distinct now m v.distinct;
      held = lookup-drop_live now k e m v.distinct live v.held;
    })

-- Calls in the order in which the mutex admits them, each with the time of the clock.
unfoldable pub run : List (ℤ × Option LinkedDeviceCeremony) → Claims → Claims
run [] m = m
run ((now, ceremony) ∷ calls) m = run calls (validate_linked_device_ceremony now ceremony m).1

abbrev pub AllBefore : ℤ → List (ℤ × Option LinkedDeviceCeremony) → Type 0
AllBefore e [] = Unit
AllBefore e ((now, ceremony) ∷ calls) = (leb_ℤ e now ≡ false) × AllBefore e calls

run-IsClaimed :
    (calls : List (ℤ × Option LinkedDeviceCeremony)) (m : Claims) (k : Str) (e : ℤ)
    → AllBefore e calls
    → IsClaimed k e m
    → IsClaimed k e (run calls m)
unfolding run
run-IsClaimed [] m k e before v = v
run-IsClaimed ((now, ceremony) ∷ calls) m k e before v =
    run-IsClaimed calls _ k e before.1 (validate-IsClaimed now ceremony m k e before.0 v)

check_ceremony-same :
    (now : ℤ) (c c' : LinkedDeviceCeremony) → check_ceremony now (some c) ≡ ok c' → c' ≡ c
unfolding check_ceremony
check_ceremony-same now c c' e = ground arith

granted :
    (c : LinkedDeviceCeremony) (m : Claims) (o : Option ℤ)
    → lookup c.consent_ref m ≡ o
    → Distinct m
    → (take_claim c o m).0 ≡ ok tt
    → IsClaimed c.consent_ref c.consent_expires_unix (take_claim c o m).1
unfolding take_claim
granted c m (some x) f d e = cc
granted c m none f d e = record {
  distinct = insert-Distinct c.consent_ref c.consent_expires_unix m d;
  held = simp (lookup-insert, str_eq_refl);
}

accepted_at :
    (now : ℤ) (c : LinkedDeviceCeremony) (m : Claims) (r : Result Error LinkedDeviceCeremony)
    → check_ceremony now (some c) ≡ r
    → Distinct (drop_expired now m)
    → (after r
        (λ c' m'. take_claim c' (lookup c'.consent_ref (drop_expired now m')) (drop_expired now m'))
        m).0
      ≡ ok tt
    → IsClaimed c.consent_ref c.consent_expires_unix
        (after r
          (λ c' m'.
            take_claim c' (lookup c'.consent_ref (drop_expired now m')) (drop_expired now m'))
          m).1
accepted_at now c m (err x) p d e = cc
accepted_at now c m (ok c') p d e =
    let same = check_ceremony-same now c c' p in
    subst
      (λ (x : LinkedDeviceCeremony).
        IsClaimed x.consent_ref x.consent_expires_unix
          (take_claim c' (lookup c'.consent_ref (drop_expired now m)) (drop_expired now m)).1)
      same (granted c' (drop_expired now m) _ refl d e)

accepted-IsClaimed :
    (now : ℤ) (c : LinkedDeviceCeremony) (m : Claims)
    → Distinct m
    → (validate_linked_device_ceremony now (some c) m).0 ≡ ok tt
    → IsClaimed c.consent_ref c.consent_expires_unix
        (validate_linked_device_ceremony now (some c) m).1
unfolding validate_linked_device_ceremony
accepted-IsClaimed now c m d e =
    accepted_at now c m (check_ceremony now (some c)) refl (drop_expired-Distinct now m d) e

refused_claimed :
    (later : ℤ) (again : LinkedDeviceCeremony) (m : Claims) (e : ℤ)
    → check_ceremony later (some again) ≡ ok again
    → leb_ℤ e later ≡ false
    → IsClaimed again.consent_ref e m
    → (validate_linked_device_ceremony later (some again) m).0 ≡ err consent_replay
unfolding validate_linked_device_ceremony
refused_claimed later again m e pass live v =
    rw (pass, lookup-drop_live later again.consent_ref e m v.distinct live v.held) refl

-- After a ceremony was accepted, and whatever was validated since and before the consent
-- expires, another ceremony with the same consent that passes the other checks is refused as a
-- replay until the consent expires.
pub consent_not_replayed :
    (now later : ℤ) (c again : LinkedDeviceCeremony) (m : Claims)
    (calls : List (ℤ × Option LinkedDeviceCeremony))
    → Distinct m
    → (validate_linked_device_ceremony now (some c) m).0 ≡ ok tt
    → AllBefore c.consent_expires_unix calls
    → leb_ℤ c.consent_expires_unix later ≡ false
    → again.consent_ref ≡ c.consent_ref
    → check_ceremony later (some again) ≡ ok again
    → (validate_linked_device_ceremony later
        (some again)
        (run calls (validate_linked_device_ceremony now (some c) m).1)).0
      ≡ err consent_replay
consent_not_replayed now later c again m calls d e before live same pass =
    refused_claimed later again _ c.consent_expires_unix pass live (
      rw same (
        run-IsClaimed calls _ c.consent_ref c.consent_expires_unix before
          (accepted-IsClaimed now c m d e)))
