-- ===== src/Examples/SyncCancel/Calls.antt =====
-- Pattern 2 of examples/sync-cancel.rs: the replies of the operation, call by call.
use mathlib.Core.Path.{subst}
use tenacious.Prelude.{
  ℕ, suc, ◌+◌, ◌-◌, ◌≤◌, ◌<◌, ◌%◌, ◌^◌, ◌≡◌, refl, sym, ap, ◌∙◌, arith, Bool, true, false,
  Bool-cases, inl, inr, some, Result, ok, err, Ref, IsCell, Apart, leb, le→leb, leb→le, not_leb→lt,
  lt→not_leb,
}
use tenacious.Decision.{Decide, Verdict}
use tenacious.Clock.{SyncClock}
use tenacious.Engine.Sync.{Finished, u32_max, run}
use tenacious.Engine.Sync.Spec.{resolve}
use tenacious.Engine.Sync.Spec.Answers.{switch}
use tenacious.Examples.Plain.{plain, plain-Meets}
use tenacious.Examples.SyncCancel.{ServiceError, simulate, operation}

abbrev pub Reply : Type 0
Reply = Result (Unit {0}) ServiceError

abbrev pub refused : Reply
refused = err (ServiceError.transient "connection refused")

-- What the predicate of `cancel_retry` makes of a reply.
abbrev pub judge : Reply → Verdict (Unit {0}) ServiceError Reply
judge (ok value) = Verdict.accept value
judge (err (ServiceError.transient why)) = Verdict.retry (err (ServiceError.transient why))
judge (err ServiceError.cancelled) = Verdict.abort ServiceError.cancelled

-- The reply to the `i`th call, where the first `j` ones are not cancelled.
abbrev pub reply : ℕ → ℕ → Reply
reply = switch refused (err ServiceError.cancelled)

-- The calls that are not cancelled, from the flag and the counter at the start.
abbrev pub calls_left : Bool → ℕ → ℕ
calls_left true n = 0
calls_left false n = (2 - n) + 1

pub within : (b : Bool) (n : ℕ) → suc (calls_left b n) ≤ 4
within true n = omega arith
within false n = omega arith

module _ {World : Type 0} (system : SyncClock World) (flag : Ref World Bool) (counter : Ref World ℕ)
    (flag_cell : IsCell flag) (counter_cell : IsCell counter) (flag_apart : Apart flag counter)
    (counter_apart : Apart counter flag)
    (quiet_now : (w : World)
      → (flag.get (system.now w).1 ≡ flag.get w) × (counter.get (system.now w).1 ≡ counter.get w))
    (quiet_wait : (delay : _) (w : World)
      → (flag.get (system.wait delay w).1 ≡ flag.get w)
        × (counter.get (system.wait delay w).1 ≡ counter.get w)) where
  -- Before the `k`th call, if the first `j` calls are not cancelled and the counter was `n`.
  abbrev Before : ℕ → ℕ → ℕ → World → Type 0
  Before n j k w = (1 ≤ k) × (flag.get w ≡ leb (j + 1) k) × (k ≤ j → counter.get w + 1 ≡ n + k)

  same_cells :
      (n j k : ℕ) (w v : World)
      → (flag.get v ≡ flag.get w) × (counter.get v ≡ counter.get w)
      → Before n j k w
      → Before n j k v
  same_cells n j k w v (flags, counters) (pos, set, count) =
      (pos, flags ∙ set, λ le. ap (λ (c : ℕ). c + 1) counters ∙ count le)

  simulate-Before :
      (n j k : ℕ) (w : World)
      → n < u32_max
      → (j ≤ (2 - n) + 1)
      → (3 ≤ n + j)
      → k ≤ j
      → flag.get w ≡ false
      → Before n j k w
      → ((simulate flag counter w).0 ≡ refused) × Before n j (suc k) (simulate flag counter w).1
  unfolding simulate
  simulate-Before n j k w small short full early off (pos, set, count) =
      let counted = count early in
      let next : (counter.get w + 1) % 2 ^ 32 ≡ n + k = omega arith in
      let written : counter.get (counter.set ((counter.get w + 1) % 2 ^ 32) w) ≡ n + k =
        counter_cell.get-set _ w ∙ next in
      elim (Bool-cases (leb 3 ((counter.get w + 1) % 2 ^ 32))) [
        | inl e ↦
            let reached = leb→le 3 ((counter.get w + 1) % 2 ^ 32) e in
            rw e (
              refl,
              (
                omega arith,
                flag_cell.get-set true _ ∙ sym (le→leb (j + 1) (suc k) (omega arith)),
                λ le. absurd (omega arith),
              ),
            )
        | inr e ↦
            let not_yet = not_leb→lt 3 ((counter.get w + 1) % 2 ^ 32) e in
            rw e (
              refl,
              (
                omega arith,
                flag_apart _ w ∙ off ∙ sym (lt→not_leb (j + 1) (suc k) (omega arith)),
                λ le. omega arith,
              ),
            )
      ]

  operation-Before :
      (n j k : ℕ) (w : World)
      → n < u32_max
      → (j ≤ (2 - n) + 1)
      → (1 ≤ j → 3 ≤ n + j)
      → Before n j k w
      → ((operation flag counter w).0 ≡ reply j k) × Before n j (suc k) (operation flag counter w).1
  unfolding operation
  operation-Before n j k w small short full (pos, set, count) = elim (Bool-cases (leb (j + 1) k)) [
    | inl e ↦
        let late = leb→le (j + 1) k e in
        let not_early = lt→not_leb k j (omega arith) in
        let on : flag.get w ≡ true = set ∙ e in
        rw (on, not_early)
          (
            refl,
            (
              omega arith,
              on ∙ sym (le→leb (j + 1) (suc k) (omega arith)),
              λ le. absurd (omega arith),
            ),
          )
    | inr e ↦
        let early = not_leb→lt (j + 1) k e in
        let off : flag.get w ≡ false = set ∙ e in
        let (same, before) =
          simulate-Before n j k w small short (full (omega arith)) (omega arith) off
            (pos, set, count) in
        rw (off, le→leb k j (omega arith)) (same, before)
  ]

  -- The bounds on the calls that are not cancelled, and what holds at the start.
  short : (b : Bool) (n : ℕ) → calls_left b n ≤ (2 - n) + 1
  short true n = omega arith
  short false n = omega arith

  full : (b : Bool) (n : ℕ) → 1 ≤ calls_left b n → 3 ≤ n + calls_left b n
  full true n le = absurd (omega arith)
  full false n le = omega arith

  fresh-Before :
      (b : Bool) (w : World)
      → flag.get w ≡ b
      → Before (counter.get w) (calls_left b (counter.get w)) 1 w
  fresh-Before true w e = (omega arith, e, λ le. omega arith)
  fresh-Before false w e = (
    omega arith,
    e ∙ sym (lt→not_leb (calls_left false (counter.get w) + 1) 1 (omega arith)),
    λ le. omega arith,
  )

  -- The answer of a loop of 100 attempts over the operation.
  pub answered :
      (classifier : Decide World (Unit {0}) ServiceError Reply)
      (classify : Reply → Verdict (Unit {0}) ServiceError Reply) (w : World)
      → counter.get w < u32_max
      → ((outcome : Reply) (v : World) → (classifier outcome v).0 ≡ classify outcome)
      → ((outcome : Reply) (v : World) → (classifier outcome v).1 ≡ v)
      → let self = plain (λ _. operation flag counter) classifier 100 0 system in
        let answer = resolve classify (reply (calls_left (flag.get w) (counter.get w))) 99 1 in
        (g : Finished (Unit {0}) ServiceError Reply) × ((run 100 self w).0 ≡ some g)
        × (g.0 ≡ answer.0)
        × (g.1.attempts ≡ answer.1)
  answered classifier classify w small classified quiet =
      let n = counter.get w in
      let j = calls_left (flag.get w) n in
      let (g, e, result, count, _) =
        plain-Meets (λ _. operation flag counter) classifier 100 0 system (Before n j) classify
          (reply j) w classified
          record {
            classifier_onto = λ outcome v k here. subst (Before n j k) (sym (quiet outcome v)) here;
            now_onto = λ v k here. same_cells n j k v _ (quiet_now v) here;
            wait_onto = λ delay v k here. same_cells n j k v _ (quiet_wait delay v) here;
          }
          (λ k state v here.
            operation-Before n j k v small (short (flag.get w) n) (full (flag.get w) n) here)
          (omega arith) (omega arith) (fresh-Before (flag.get w) w refl) in
      (g, e, result, count)
