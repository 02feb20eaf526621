-- ===== src/World.antt =====
-- What a request runs in: the tables, the clock, the generator of ids and the notifications
-- written so far. A method of a service or a repository is an `Action`: it returns or throws, and
-- what it wrote before a throw stays written, since the program opens no database transactions.
pub mod Leaves
use tanta.Base.{ℕ, suc, String, Option, none, some, List, [], ◌∷◌, ◌++◌}
use tanta.Database.{Table}
use tanta.Notification.{NotifyUser}
use tanta.Shared.Exception.{Exception, Result, ok, throw}
use tanta.Tables.{WalletRow, TransactionRow, TransferringRow}

pub record Database : Type 1 where
  pub wallets : Table WalletRow (λ r. r.wallet_id)
  pub transactions : Table TransactionRow (λ r. r.transaction_id)
  pub transferrings : Table TransferringRow (λ r. r.transferring_id)

-- `times` and `uuids` are what `Date.now()` and `uuid.v4()` will answer, call by call.
pub record World (db : Database) : Type 0 where
  pub wallets : db.wallets.Store
  pub transactions : db.transactions.Store
  pub transferrings : db.transferrings.Store
  pub times : ℕ → ℕ
  pub uuids : ℕ → String
  pub notified : List NotifyUser

abbrev pub Action : Database → Type 0 → Type 0
Action db A = World db → Result A × World db

module _ {db : Database} {A : Type 0} where
  abbrev pub pure : A → World db → Result A × World db
  pure a w = (ok a, w)

  abbrev pub raise : Exception → World db → Result A × World db
  raise e w = (throw e, w)

  abbrev pub lift : Result A → World db → Result A × World db
  lift r w = (r, w)

  abbrev pub gets : (World db → A) → World db → Result A × World db
  gets f w = (ok (f w), w)

module _ {db : Database} {A B : Type 0} where
  abbrev continue : Result A → (A → World db → Result B × World db) → World db → Result B × World db
  continue (ok a) f w = f a w
  continue (throw e) f w = (throw e, w)

  infixl 5 ◌>>=◌ ◌>>◌
  abbrev pub ◌>>=◌ :
      (World db → Result A × World db)
      → (A → World db → Result B × World db)
      → World db
      → Result B × World db
  ◌>>=◌ m f w = let (r, w') = m w in continue r f w'

  abbrev pub ◌>>◌ :
      (World db → Result A × World db)
      → (World db → Result B × World db)
      → World db
      → Result B × World db
  m >> k = m >>= λ _. k

module _ {db : Database} where
  -- `try { await … } catch { throw e }` round a write of the database.
  abbrev committed : Exception → World db → Option (World db) → Result (Unit {0}) × World db
  committed e w none = (throw e, w)
  committed e w (some w') = (ok tt, w')

  abbrev pub write_or : (World db → Option (World db)) → Exception → Action db (Unit {0})
  write_or f e w = committed e w (f w)

  -- `Date.now()`
  abbrev pub now : Action db ℕ
  now w = (ok (w.times 0), record w { times = λ n. w.times (suc n) })

  -- `uuid.v4()`
  abbrev pub uuid : Action db String
  uuid w = (ok (w.uuids 0), record w { uuids = λ n. w.uuids (suc n) })

  -- `NotificationService.notifyUser` writes to the console.
  abbrev pub notify_user : NotifyUser → Action db (Unit {0})
  notify_user n w = (ok tt, record w { notified = w.notified ++ n ∷ [] })
