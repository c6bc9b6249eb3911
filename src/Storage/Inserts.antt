-- ===== src/Storage/Inserts.antt =====
-- The four insert methods of `SQLiteStore`: whether a row was added, or an error.
use mesh_monday.Base.{ℕ, Bool, true, false, Bytes, codes, ltb, if◌then◌else◌, Result, ok, err}
use mesh_monday.Go.Text.{contains}
use mesh_monday.Storage.Schema.{RawPacket, Checkin}
use mesh_monday.Storage.Exec.{SqlError, message, Exec, exec}
use mesh_monday.Storage.Statements.{
  insert_raw, insert_checkin_row, insert_observation_row, insert_link_row,
}

-- A UNIQUE constraint that failed is no error: the row is there already.
tolerate_unique : Result SqlError ℕ → Result SqlError Bool
tolerate_unique (ok n) = ok true
tolerate_unique (err e) =
    if contains (message e) (codes "UNIQUE constraint failed") then ok false else err e

-- `rowsAffected > 0`
unfoldable pub rows_affected : Result SqlError ℕ → Result SqlError Bool
rows_affected (ok n) = ok (ltb 0 n)
rows_affected (err e) = err e

abbrev with_result : {A B : Type 0} → (Result SqlError A → Result SqlError B) → Exec A → Exec B
with_result f m w = let (r, w') = m w in (f r, w')

unfoldable pub insert_raw_packet : RawPacket → Exec Bool
unfolding tolerate_unique
insert_raw_packet packet = with_result tolerate_unique (exec (insert_raw packet))

unfoldable pub insert_checkin : Checkin → Exec Bool
unfolding rows_affected
insert_checkin checkin = with_result rows_affected (exec (insert_checkin_row checkin))

unfoldable pub insert_packet_observation : Bytes → Bytes → ℕ → Exec Bool
unfolding tolerate_unique
insert_packet_observation packet_hash observer_key observed_at = with_result tolerate_unique (
    exec (
      insert_observation_row (record {
        id = 0;
        packet_hash = packet_hash;
        observer_key = observer_key;
        observed_at = observed_at;
      })))

unfoldable pub insert_checkin_packet : ℕ → Bytes → Bytes → ℕ → Exec Bool
unfolding rows_affected
insert_checkin_packet week_start username packet_hash created_at = with_result rows_affected (
    exec (
      insert_link_row (record {
        id = 0;
        week_start = week_start;
        username = username;
        packet_hash = packet_hash;
        created_at = created_at;
      })))
