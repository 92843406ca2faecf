-- ===== src/Storage/Ingestion/Keeps.antt =====
-- What a method of the repository keeps of the tables, whether it returns or raises.
use sovereign_flow.Prelude.{String, Bool}
use sovereign_flow.Result.{Error, Result, ok, err}
use sovereign_flow.Effect.{Effect, throw, modify, ◌>>◌, caught}
use sovereign_flow.Effect.Keeps.{Keeps}
use sovereign_flow.Storage.Tables.{Tables}
use sovereign_flow.Storage.Ingestion.{Store, passed_on, transaction, change, select}

module _ (I : Tables → Type 0) where
  abbrev pub On : Store → Type 0
  On s = I s.tables

  pub change-Keeps : (f : Tables → Tables) → ((t : Tables) → I t → I (f t)) → Keeps On (change f)
  change-Keeps f k = record { after = λ s h. k s.tables h }

  pub select-Keeps : {A : Type 0} (f : Tables → A) → Keeps On (select f)
  select-Keeps f = record { after = λ s h. h }

  -- An exception leaves the tables as they were.
  pub transaction-Keeps :
      {A : Type 0} (known : Error → Bool) (message : String) (m : Effect Store A)
      → Keeps On m
      → Keeps On (transaction known message m)
  unfolding transaction
  transaction-Keeps {A} known message m k = record {
    after = λ s h. go s h (m s).0 (m s).1 (k.after s h);
  }
    where
      go :
          (s : Store)
          → I s.tables
          → (r : Result A) (s' : Store) → I s'.tables
          → I
              ((caught
                  (λ e.
                    modify (λ t. record t { tables = s.tables })
                    >> throw (passed_on known message e))
                  r
                  s').1
                ).tables
      go s h (ok a) s' h' = h'
      go s h (err e) s' h' = h
