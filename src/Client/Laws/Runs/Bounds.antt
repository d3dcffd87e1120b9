-- ===== src/Client/Laws/Runs/Bounds.antt =====
-- The queues and the delays of client.ts keep to their bounds under each change.
use dap.Common.{◌*◌, min, ◌≤◌, subst, arith, none, some, some_injective}
use dap.Client.Wire.{inbox_cap, errors_cap}
use dap.Client.Laws.Runs.Noted.{Noted, IsSound, IsWindow-push_bounded, IsWindow-drained}
use dap.Client.Laws.Runs.Stable.{IsStable}

IsSound-doubled :
    (n : Noted)
    → IsSound n
    → IsSound (record n { retry_in = some n.delay; delay = min (n.delay * 2) n.max_ms })
IsSound-doubled n s = record {
  messages = s.messages;
  errors = s.errors;
  limits = s.limits;
  least = omega (arith, s.least, s.limits);
  most = omega arith;
  retry =
      λ ms e. subst (λ t. (n.initial_ms ≤ t) × (t ≤ n.max_ms)) (some_injective e) (s.least, s.most);
}

IsSound-no_retry : (n : Noted) → IsSound n → IsSound (record n { retry_in = none })
IsSound-no_retry n s = record {
  messages = s.messages;
  errors = s.errors;
  limits = s.limits;
  least = s.least;
  most = s.most;
  retry = λ ms e. absurd (ground (arith, e));
}

pub IsSound-IsStable : IsStable IsSound
IsSound-IsStable = record {
  delivered = λ n ev s. record {
    messages = IsWindow-push_bounded inbox_cap n.inbox n.observed ev (omega arith) s.messages;
    errors = s.errors;
    limits = s.limits;
    least = s.least;
    most = s.most;
    retry = s.retry;
  };
  rung = λ n ev s. record {
    messages = s.messages;
    errors = IsWindow-push_bounded errors_cap n.error_ring n.reported ev (omega arith) s.errors;
    limits = s.limits;
    least = s.least;
    most = s.most;
    retry = s.retry;
  };
  inbox_drained = λ n s. record {
    messages = IsWindow-drained inbox_cap n.observed;
    errors = s.errors;
    limits = s.limits;
    least = s.least;
    most = s.most;
    retry = s.retry;
  };
  errors_drained = λ n s. record {
    messages = s.messages;
    errors = IsWindow-drained errors_cap n.reported;
    limits = s.limits;
    least = s.least;
    most = s.most;
    retry = s.retry;
  };
  reset = λ n s. record {
    messages = s.messages;
    errors = s.errors;
    limits = s.limits;
    least = omega arith;
    most = s.limits;
    retry = s.retry;
  };
  doubled = IsSound-doubled;
  no_retry = IsSound-no_retry;
  recovered = λ n s. record {
    messages = s.messages;
    errors = s.errors;
    limits = s.limits;
    least = s.least;
    most = s.most;
    retry = s.retry;
  };
}
