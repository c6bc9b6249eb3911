-- ===== src/Storage/Retention/Ends.antt =====
-- How a loop of the retention ends: never for lack of fuel, with an error, or with its work done.
use mesh_monday.Base.{ℕ, ◌≡◌, refl, Option, none, some, inl, inr, Bool-cases}
use mesh_monday.Storage.Schema.{Db}
use mesh_monday.Storage.Exec.{World, wait, next_wait}
use mesh_monday.Storage.Retention.{Deletion, deleted, Counted, on_context}

-- The loop has fuel enough; `P` holds of the store where an error ends it, and `Q` of the total and
-- the store where none does.
abbrev pub Ends : (Db → Type 0) → (ℕ → Db → Type 0) → Option Deletion × World → Type 0
Ends P Q (none, w) = ⊥
Ends P Q (some (deleted n (some e)), w) = P w.db
Ends P Q (some (deleted n none), w) = Q n w.db

pub Ends-map :
    (P P' : Db → Type 0) (Q Q' : ℕ → Db → Type 0)
    → ((db : Db) → P db → P' db)
    → ((n : ℕ) (db : Db) → Q n db → Q' n db)
    → (r : Option Deletion × World) → Ends P Q r
    → Ends P' Q' r
Ends-map P P' Q Q' f g (none, w) h = h
Ends-map P P' Q Q' f g (some (deleted n (some e)), w) h = f w.db h
Ends-map P P' Q Q' f g (some (deleted n none), w) h = g n w.db h

-- A look at the context leaves the store as it is.
pub on_context-Ends :
    (P : Db → Type 0) (Q : ℕ → Db → Type 0) (total : ℕ) (next : Counted) (w : World)
    → P w.db
    → ((w' : World) → w'.db ≡ w.db → Ends P Q (next w'))
    → Ends P Q (on_context total next (wait w))
unfolding on_context wait
on_context-Ends P Q total next w h go = elim (Bool-cases (next_wait w.waits).0) [
  | inl e ↦ rw e h
  | inr e ↦ rw e (go (record w { waits = (next_wait w.waits).1 }) refl)
]

-- What such an end says of the result and of the store.
module _ (P : Db → Type 0) (Q : ℕ → Db → Type 0) where
  pub Ends-some : (r : Option Deletion × World) → Ends P Q r → (d : Deletion) × (r.0 ≡ some d)
  Ends-some (none, w) h = absurd h
  Ends-some (some d, w) h = (d, refl)

  pub Ends-store :
      (R : Db → Type 0)
      → ((db : Db) → P db → R db)
      → ((n : ℕ) (db : Db) → Q n db → R db)
      → (r : Option Deletion × World) → Ends P Q r
      → R r.1.db
  Ends-store R f g (none, w) h = absurd h
  Ends-store R f g (some (deleted n (some e)), w) h = f w.db h
  Ends-store R f g (some (deleted n none), w) h = g n w.db h

  pub Ends-done :
      (n : ℕ) (r : Option Deletion × World) → Ends P Q r → r.0 ≡ some (deleted n none) → Q n r.1.db
  Ends-done n (none, w) h e = absurd h
  Ends-done n (some (deleted m (some f)), w) h e = cc
  Ends-done n (some (deleted m none), w) h e = let same : m ≡ n = cc in rw (← same) h
