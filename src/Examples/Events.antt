-- ===== src/Examples/Events.antt =====
-- Two workers on one event of the outbox.
use gramoz.Common.{◌≡◌, refl, false, none, List, [], ◌∷◌, some, arith}
use gramoz.Schema.Enums.{OutboxStatus}
use gramoz.Outbox.{
  OutboxEvent, claim, claimed, due_events, by_age, insert_event, first_events,
  recover_stranded_events, process_event, settle, raised, succeeded, renew, mark_failed,
}
use gramoz.Outbox.Attempts.{Sound, attempts_are_bounded}
use gramoz.Outbox.Fencing.{
  recovers, claims, OutboxRun, Settled, lost_lease, late_result, owned_event_settles,
}

abbrev sms : OutboxEvent
sms = record {
  id = 60;
  status = OutboxStatus.pending;
  attempts = 0;
  last_error = none;
  created_at = 1_000;
  updated_at = 1_000;
}

-- The first worker claims the event and hangs; after five minutes it is recovered and claimed again.
abbrev first_claim : List OutboxEvent
first_claim = claim 2_000 (sms ∷ [])

abbrev recovered : List OutboxEvent
recovered = recover_stranded_events 400_000 first_claim

abbrev second_claim : List OutboxEvent
second_claim = claim 401_000 recovered

abbrev twice : OutboxEvent
twice = record sms {
  status = OutboxStatus.processing;
  attempts = 2;
  last_error = some "Worker lease expired / worker process interrupted";
  updated_at = 401_000;
}

claimed_twice : second_claim ≡ twice ∷ []
unfolding claim due_events by_age insert_event first_events recover_stranded_events
claimed_twice = refl

claims_one : claimed 401_000 recovered ≡ twice ∷ []
unfolding claimed claim due_events by_age insert_event first_events recover_stranded_events
claims_one = refl

-- A third attempt that fails is the last.
gives_up : process_event 500_000 60 3 (raised "timeout") (record twice { attempts = 3 } ∷ []) ≡ (
  false,
  record twice {
    attempts = 3;
    status = OutboxStatus.failed;
    last_error = some "timeout";
    updated_at = 500_000;
  }
      ∷ [],
)
unfolding process_event settle renew mark_failed
gives_up = refl

lost_lease_example : process_event 402_000 60 1 succeeded (twice ∷ []) ≡ (false, twice ∷ [])
lost_lease_example =
    lost_lease 60 2 1 402_000 succeeded (twice ∷ []) (twice ∷ []) refl (omega arith) OutboxRun.done

late_result_example : (settle 402_000 60 1 (raised "timeout") (twice ∷ [])).1 ≡ twice ∷ []
late_result_example =
    late_result 60 2 1 402_000 (raised "timeout") (twice ∷ []) (twice ∷ []) refl (omega arith)
      (λ e. cc) OutboxRun.done

owned_event_settles_example :
    Settled 60 2 (raised "timeout") (process_event 402_000 60 2 (raised "timeout") (twice ∷ []))
owned_event_settles_example =
    owned_event_settles 402_000 60 2 (raised "timeout") (twice ∷ []) twice refl refl

-- From the new event to its second claim.
second_run : OutboxRun (sms ∷ []) second_claim
second_run =
    OutboxRun.next (claims 2_000 refl)
      (OutboxRun.next (recovers 400_000 refl) (OutboxRun.next (claims 401_000 refl) OutboxRun.done))

sms-Sound : Sound (sms ∷ [])
sms-Sound = record { unique = (refl, tt); bounded = λ k e h. ground (arith, h) }

attempts_are_bounded_example : Sound second_claim
attempts_are_bounded_example = attempts_are_bounded (sms ∷ []) second_claim second_run sms-Sound
