-- ===== src/Shared/ConcurrencyControl.antt =====
-- wallet/src/lib/concurrency-control.ts. `incrementVersion` writes to its object; every caller
-- applies it to a fresh clone, so it returns the new object here.
use tanta.Base.{ℕ, ◌+◌, ◌≡◌, Bool, false, ltb, arith, if◌then◌else◌}

pub record TransactionControl : Type 0 where
  pub version : ℕ

abbrev pub get_version : TransactionControl → ℕ
get_version c = c.version

unfoldable pub increment_version : TransactionControl → TransactionControl
increment_version c = record { version = c.version + 1 }

unfoldable pub is_new : TransactionControl → Bool
is_new c = ltb c.version 2

unfoldable pub clone : TransactionControl → TransactionControl
clone c = record { version = c.version }

unfoldable pub from_version : ℕ → TransactionControl
from_version version = record { version = version }

-- The default argument of `fromVersion` is 0.
unfoldable pub init : TransactionControl
unfolding from_version
init = from_version 0

unfoldable pub from_state : Bool → TransactionControl
from_state new = if new then record { version = 1 } else record { version = 2 }

-- What a save writes and hands back: the control of a clone, one version up.
abbrev pub next : TransactionControl → TransactionControl
next c = increment_version (clone c)

-- A control that is stored as its `isNew` flag and read back is new exactly if it was, and after
-- the next increment it is never new, as the stored control would not be.
pub from_state-is_new :
    (c : TransactionControl)
    → (is_new (from_state (is_new (next c))) ≡ is_new (next c))
      × (is_new (next (from_state (is_new (next c)))) ≡ false)
      × (is_new (next (next c)) ≡ false)
unfolding is_new from_state increment_version clone
from_state-is_new c = ground arith
