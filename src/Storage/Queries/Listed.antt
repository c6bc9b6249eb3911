-- ===== src/Storage/Queries/Listed.antt =====
-- How many of the rows that a query lists pass a test.
use mesh_monday.Base.{
  ℕ, ◌≡◌, sym, ap, ◌∙◌, Bool, ◌&&◌, List, Bytes, leb, keep, keep-keep, any_of, any_of-keep, length,
}
use mesh_monday.Go.Sort.{sort_slice}
use mesh_monday.Go.Sort.Order.{sort_slice_rearranges, length-keep_perm, any_of-perm}
use mesh_monday.Storage.Schema.{Checkin, Db}
use mesh_monday.Storage.Queries.{passes, since_less}

-- Whether the board is to count the check-in: it is not older than the day, and passes the filters.
abbrev pub on_since : List Bytes → ℕ → Db → Checkin → Bool
on_since filters day db c = leb day c.checkin_date && passes filters db c

module _ (filters : List Bytes) (day : ℕ) (db : Db) (p : Checkin → Bool) where
  pub length-keep_since :
      length (keep p (sort_slice since_less (keep (on_since filters day db) db.checkins)))
      ≡ length (keep (λ c. on_since filters day db c && p c) db.checkins)
  length-keep_since =
      sym (length-keep_perm p (sort_slice_rearranges since_less _))
      ∙ ap length (keep-keep p (on_since filters day db) db.checkins)

  pub any_of-since :
      any_of p (sort_slice since_less (keep (on_since filters day db) db.checkins))
      ≡ any_of (λ c. on_since filters day db c && p c) db.checkins
  any_of-since =
      sym (any_of-perm p (sort_slice_rearranges since_less _))
      ∙ any_of-keep p (on_since filters day db) db.checkins
