-- ===== src/Envelope/Retention.antt =====
-- `enforceRetentionLocked` of internal/envelope_store.go.
mod Scan
pub mod Laws
use workflow_plugin_signal.Base.{
  ℕ, ℤ, zero, suc, pos, ◌+◌, Bool, ◌||◌, List, [], ◌∷◌, foldl, ltb, leb, ltb_ℤ, is_zero,
  if◌then◌else◌, Str, is_empty, Dict, length, remove,
}
use workflow_plugin_signal.Envelope.{EnvelopeRecord, Host}

-- The time stamp by which a record is aged.
unfoldable pub age_stamp : EnvelopeRecord → ℤ
age_stamp r = if is_zero r.created_at_unix then r.received_at_unix else r.created_at_unix

-- One round of the inner loop over `oldestRef` and `oldest`.
unfoldable pub oldest_step : Str × ℤ → Str × EnvelopeRecord → Str × ℤ
unfolding age_stamp
oldest_step (oldest_ref, oldest) (ref, r) =
    if is_empty oldest_ref || ltb_ℤ (age_stamp r) oldest
    then (ref, age_stamp r)
    else (oldest_ref, oldest)

unfoldable pub find_oldest : Dict EnvelopeRecord → Str × ℤ
unfolding oldest_step
find_oldest entries = foldl oldest_step ([], pos 0) entries

-- `for len(queue) > limit`, with fuel and the number of the round.
unfoldable pub retention_loop : Host → ℕ → ℕ → ℕ → Dict EnvelopeRecord → Dict EnvelopeRecord
retention_loop h zero n limit q = q
retention_loop h (suc fuel) n limit q =
    let rest = retention_loop h fuel (suc n) limit (remove (find_oldest (h.range n q)).0 q) in
    if ltb limit (length q) then rest else q

-- A round removes an entry, so as many rounds as there are entries are enough.
unfoldable pub enforce_retention : Host → ℕ → Dict EnvelopeRecord → Dict EnvelopeRecord
enforce_retention h limit q =
    if leb limit 0 || leb (length q) limit then q else retention_loop h (length q) 0 limit q
