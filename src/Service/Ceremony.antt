-- ===== src/Service/Ceremony.antt =====
-- `validateLinkedDeviceCeremony` of internal/steps_service_operations.go, with the global map of
-- claimed consents, which a mutex guards.
pub mod Replay
use workflow_plugin_signal.Base.{
  ℤ, Bool, true, false, ◌||◌, Option, none, some, List, [], ◌∷◌, if◌then◌else◌, is_zero, leb_ℤ, Str,
  lit, is_empty, Dict, lookup, insert, Result, ok, err, ◌>>=◌, ◌>>◌, fail_if, or_fail, after,
}
use workflow_plugin_signal.Text.{has_prefix}

pub record LinkedDeviceCeremony : Type 0 where
  pub device_display_name : Str
  pub consent_ref : Str
  pub consent_expires_unix : ℤ
  pub revocation_uri : Str
  pub unlink_proof_ref : Str

pub data Error : Type 0 where
  is_required : Str → Error
  consent_expired unlink_proof_revoked consent_replay : Error

-- linkedDeviceCeremonyClaims: a consent reference and when it expires.
abbrev pub Claims : Type 0
Claims = Dict ℤ

unfoldable pub check_ceremony : ℤ → Option LinkedDeviceCeremony → Result Error LinkedDeviceCeremony
check_ceremony now ceremony = do
  c ← or_fail ceremony (is_required (lit "linked_device"))
  fail_if (is_empty c.device_display_name) (is_required (lit "device_display_name"))
  fail_if (is_empty c.consent_ref) (is_required (lit "consent_ref"))
  fail_if (is_zero c.consent_expires_unix) (is_required (lit "consent_expires_unix"))
  fail_if (leb_ℤ c.consent_expires_unix now) consent_expired
  fail_if (is_empty c.revocation_uri) (is_required (lit "revocation_uri"))
  fail_if (is_empty c.unlink_proof_ref) (is_required (lit "unlink_proof_ref"))
  fail_if (has_prefix c.unlink_proof_ref (lit "revoked://")) unlink_proof_revoked
  ok c

-- The loop that deletes the claims that have expired.
unfoldable pub drop_expired : ℤ → Claims → Claims
drop_expired now [] = []
drop_expired now ((claim, expires) ∷ claims) =
    let rest = drop_expired now claims in
    if leb_ℤ expires now then rest else (claim, expires) ∷ rest

unfoldable pub take_claim :
    LinkedDeviceCeremony → Option ℤ → Claims → Result Error (Unit {0}) × Claims
take_claim c (some _) claims = (err consent_replay, claims)
take_claim c none claims = (ok tt, insert c.consent_ref c.consent_expires_unix claims)

unfoldable pub validate_linked_device_ceremony :
    ℤ → Option LinkedDeviceCeremony → Claims → Result Error (Unit {0}) × Claims
unfolding take_claim
validate_linked_device_ceremony now ceremony claims =
    after (check_ceremony now ceremony)
      (λ c claims'.
        let live = drop_expired now claims' in take_claim c (lookup c.consent_ref live) live)
      claims
