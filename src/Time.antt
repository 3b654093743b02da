-- ===== src/Time.antt =====
-- Python's aware and naive `datetime` values, as far as the program looks at them.
use safety_grounded_agent.Prelude.{ℕ, zero, ◌+◌, ◌*◌, Bool, true, false, Option, some, leb, ltb}

-- Whole minutes east of UTC; `west n` is n + 1 minutes to the west.
pub data Offset : Type 0 where
  east : ℕ → Offset
  west : ℕ → Offset

-- The instant in microseconds, and what `utcoffset()` returns: `none` for a naive value.
pub record Datetime : Type 0 where
  pub instant : ℕ
  pub utcoffset : Option Offset

-- `value.utcoffset() == timezone.utc.utcoffset(value)`
abbrev pub is_utc : Datetime → Bool
is_utc t = elim t.utcoffset [ some (Offset.east zero) ↦ true | _ ↦ false ]

-- `t + timedelta(seconds=n)`
abbrev pub plus_seconds : Datetime → ℕ → Datetime
plus_seconds t n = record t { instant = t.instant + 1000000 * n }

abbrev pub at_or_before : Datetime → Datetime → Bool
at_or_before a b = leb a.instant b.instant

abbrev pub later_than : Datetime → Datetime → Bool
later_than a b = ltb b.instant a.instant

-- An instant in UTC, for tests.
abbrev pub utc : ℕ → Datetime
utc n = record { instant = n; utcoffset = some (Offset.east zero) }
