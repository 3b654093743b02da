-- ===== src/Application/Replay/Storable.antt =====
-- Which results have a snapshot, and what is in it.
use safety_grounded_agent.Prelude.{ℕ, ◌≤◌, ◌≡◌}
use safety_grounded_agent.Json.{Json}
use safety_grounded_agent.Application.Replay.{Library}
use safety_grounded_agent.Application.Replay.Safe.{listed, Within, IsPlain}

-- The snapshot is the payload, with its tuples made lists, as `json` reads it back; it is within the limit,
-- and whatever stands in the payload may be stored.
abbrev pub Holds : Library → ℕ → Json → Json → Type 0
Holds lib max_bytes payload snapshot =
    (snapshot ≡ lib.reloaded (listed payload))
    × (lib.encoded_length (listed payload) ≤ max_bytes)
    × ((w : Json) → Within w payload → IsPlain lib.lower w)
