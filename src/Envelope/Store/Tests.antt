-- ===== src/Envelope/Store/Tests.antt =====
-- The board of a store at a concrete history.
use workflow_plugin_signal.Base.{◌≤◌, ◌≡◌, refl, none, pos, ok, List, [], ◌∷◌}
use workflow_plugin_signal.Envelope.{memory, System}
use workflow_plugin_signal.Envelope.Store.{
  claim_outbox, claimed_record, queued_record, enqueue_outbox,
}
use workflow_plugin_signal.Envelope.Store.Waiting.{latest, claim_outbox-available}
use workflow_plugin_signal.Envelope.Tests.{
  message, calm, config, world, host, claim_first, range_laws, in_memory, sendable,
}
use workflow_plugin_signal.Envelope.Store.Restart.{Operation, enqueue, claim, receive, perform}
use workflow_plugin_signal.Envelope.Store.Reachable.{run}
use workflow_plugin_signal.Envelope.Store.Board.{Step, count, takes_of, offers_of}
use workflow_plugin_signal.Envelope.Store.Refinement.{
  board, event, events, perform-Step, claims-bounded,
}

abbrev calls : List (System × Operation)
calls = (calm, enqueue message) ∷ (calm, claim claim_first) ∷ []

perform-Step_example :
    Step
      (event calm (claim claim_first) (run host calls (world (config memory 3))))
      (board (run host calls (world (config memory 3))).store)
      (board
        (perform host calm (claim claim_first) (run host calls (world (config memory 3)))).1.store)
perform-Step_example =
    perform-Step host calm (claim claim_first) (run host calls (world (config memory 3))) range_laws

claims-bounded_example :
    count (takes_of claim_first.envelope_ref) (events host calls (world (config memory 3)))
    ≤ count (offers_of claim_first.envelope_ref) (events host calls (world (config memory 3)))
claims-bounded_example =
    claims-bounded host (config memory 3) [] calls claim_first.envelope_ref range_laws

abbrev again : List (System × Operation)
again =
    (calm, enqueue message)
    ∷ (
      calm,
      receive (record {
        store_ref = [];
        envelope_ref = [];
        envelope = none;
        recipient_ref = [];
        idempotency_key = [];
        requested_at_unix = pos 0;
      }),
    )
    ∷ []

claim_outbox-available_example :
    (claim_outbox host calm claim_first
      (run host again (enqueue_outbox host calm message (world (config memory 0))).1)).0
    ≡ ok (
        claimed_record calm claim_first
          (latest (queued_record calm message).envelope_ref (queued_record calm message) again))
claim_outbox-available_example =
    claim_outbox-available host calm calm message again claim_first (world (config memory 0))
      in_memory refl sendable tt refl (λ e. cc)
