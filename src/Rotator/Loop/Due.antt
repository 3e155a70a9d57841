-- ===== src/Rotator/Loop/Due.antt =====
-- When the turn changes hands, and what the dashboard shows then.
use telegram_client.Prelude.{
  ℕ, ◌*◌, ◌/◌, ◌+◌, ◌-◌, ◌<◌, ◌≡◌, true, arith, nat_beq, ◌≤◌, inl, inr, Bool-cases, ltb, ltb→lt,
}
use native.Mathlib.Nat.{div-lt_iff_lt-mul}
use telegram_client.Rotator.Dashboard.{remaining, elapsed, whole_seconds}
use telegram_client.Rotator.Loop.{is_due}

-- While the rotator runs, and a start of the turn is recorded that is not in the future: the
-- countdown of the dashboard, which is cut to whole seconds, shows 0 exactly if the turn is due now
-- or will be due within less than a second. `ticks`, at least one, is the number of clock units in a
-- second.
pub is_due-remaining :
    (ticks minutes shift_started_at now : ℕ)
    → 0 < ticks
    → 0 < shift_started_at
    → shift_started_at ≤ now
    → let gone = elapsed shift_started_at now in
      nat_beq (whole_seconds ticks (remaining true (minutes * 60) gone)) 0
      ≡ is_due shift_started_at minutes (now + ticks - 1)
unfolding is_due remaining elapsed
is_due-remaining ticks minutes shift_started_at now t h k =
    let left = minutes * 60 - (now - shift_started_at) in
    let (below, back) = div-lt_iff_lt-mul t in
    elim (Bool-cases (ltb left ticks)) [
      | inl e ↦
          let none_left : left / ticks < 1 = back (omega (arith, ltb→lt left ticks e)) in
          ground (arith, none_left, ltb→lt left ticks e)
      | inr e ↦ elim (Bool-cases (ltb 0 (left / ticks))) [
        | inl some_left ↦ ground (arith, ltb→lt 0 (left / ticks) some_left, e)
        | inr none_left ↦
            let short : left < 1 * ticks = below (ground (arith, none_left)) in
            absurd (ground (arith, e, short))
      ]
    ]
