-- ===== src/Adapters/Webhooks/Attempts.antt =====
-- The attempts of `deliver`: how many are made, and when they succeed.
use der_flex.Prelude.{
  List, [], ◌∷◌, ◌++◌, refl, ℕ, zero, suc, ◌+◌, ◌≤◌, ◌<◌, String, ◌≡◌, inl, inr, Bool, true, false,
  none, arith, Bool-cases, ℕ_discrete,
}
use der_flex.Adapters.Webhooks.{
  deliver, WebhookDelivery, WebhookDispatcher, WebhookPayload, send_once, attempt_loop,
}

module _ (w : WebhookDispatcher) (url event : String) (payload : WebhookPayload) where
  -- The `n`-th attempt is accepted by the receiver.
  abbrev pub accepts : ℕ → Bool
  accepts n = (send_once w n url event payload none).0

  -- What the loop leaves, from `done` attempts made and `left` to make.
  pub record IsFirstSuccess (done left : ℕ) (result : Bool × ℕ) : Type 0 where
    pub bounded : result.1 ≤ done + left
    pub success : result.0 ≡ true → (done < result.1) × (accepts result.1 ≡ true)
    pub exhausted : result.0 ≡ false → result.1 ≡ done + left
    pub earlier_fail : (n : ℕ) → done < n → n < result.1 → accepts n ≡ false
    pub last_fails : (n : ℕ) → result.0 ≡ false → done < n → n ≤ result.1 → accepts n ≡ false

  -- One more attempt, made first, that fails.
  after_failure :
      (left done : ℕ) (result : Bool × ℕ)
      → accepts (done + 1) ≡ false
      → IsFirstSuccess (done + 1) left result
      → IsFirstSuccess done (suc left) result
  after_failure left done result failed h = record {
    bounded = omega (arith, h.bounded);
    success = λ e. let (later, good) = h.success e in (omega arith, good);
    exhausted = λ e. omega (arith, h.exhausted e);
    earlier_fail = λ n a b. elim (ℕ_discrete n (done + 1)) [
      | yes e ↦ rw e failed
      | no ne ↦ h.earlier_fail n (omega arith) b
    ];
    last_fails = λ n e a b. elim (ℕ_discrete n (done + 1)) [
      | yes q ↦ rw q failed
      | no ne ↦ h.last_fails n e (omega arith) b
    ];
  }

  at_once :
      (left done : ℕ) → accepts (done + 1) ≡ true → IsFirstSuccess done (suc left) (true, done + 1)
  at_once left done good = record {
    bounded = omega arith;
    success = λ e. (omega arith, good);
    exhausted = λ e. cc;
    earlier_fail = λ n a b. absurd (omega arith);
    last_fails = λ n e a b. cc;
  }

  attempt_loop-IsFirstSuccess :
      (left done : ℕ) → IsFirstSuccess done left (attempt_loop w url event payload left done)
  unfolding attempt_loop
  attempt_loop-IsFirstSuccess zero done = record {
    bounded = omega arith;
    success = λ h. cc;
    exhausted = λ h. omega arith;
    earlier_fail = λ n a b. absurd (omega arith);
    last_fails = λ n h a b. absurd (omega arith);
  }
  attempt_loop-IsFirstSuccess (suc left) done = elim (Bool-cases (accepts (done + 1))) [
    | inl good ↦ rw good (at_once left done good)
    | inr failed ↦ rw failed (
        after_failure left done (attempt_loop w url event payload left (done + 1)) failed
          (attempt_loop-IsFirstSuccess left (done + 1)))
  ]

  -- `deliver` records exactly one delivery behind those before it, with the attempts made: at most
  -- `max_attempts`; delivered exactly at the first attempt that the receiver accepts, else all fail.
  pub deliver-IsFirstSuccess :
      (deliveries : List WebhookDelivery)
      → (d : WebhookDelivery) × (deliver w url event payload deliveries ≡ deliveries ++ d ∷ [])
        × (d.event ≡ event)
        × (d.callback_url ≡ url)
        × IsFirstSuccess 0 w.max_attempts (d.delivered, d.attempts)
  unfolding deliver
  deliver-IsFirstSuccess deliveries = (
    record {
      event = event;
      callback_url = url;
      attempts = (attempt_loop w url event payload w.max_attempts 0).1;
      delivered = (attempt_loop w url event payload w.max_attempts 0).0;
    },
    refl,
    refl,
    refl,
    attempt_loop-IsFirstSuccess w.max_attempts 0,
  )
