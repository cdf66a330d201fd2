-- ===== src/Database/ImageRepo/RoundTrip.antt =====
-- What `ImageRepo::insert` of Backend/src/database/ImageRepo.cpp stores is what is found again.
use text2image.Base.{
  ℕ, ◌==◌, ℤ, pos, eqb_ℤ, eqb_ℤ_refl, to_int32, ◌≡◌, refl, true, ◌&&◌, Option, none, some, List, [],
  ◌∷◌, ◌++◌, All, if◌then◌else◌, ok, arith,
}
use text2image.Utils.Chrono.{Time, seconds, floor_seconds}
use text2image.Models.ImageGeneration.{ImageGeneration}
use text2image.Database.Table.{Row, Table, owned, select_where}
use text2image.Database.Invariant.{IsValid, IsBelow}
use text2image.Database.Session.{execute}
use text2image.Database.ImageRepo.{
  find_by_id_and_user_id, row_to_image_generation, column_int, column_time,
}
use text2image.Database.ImageRepo.Claims.{optional_time_to_value}
use text2image.Database.ImageRepo.Owner.{fits_columns, insert, inserted_row}
use text2image.Database.ImageRepo.Ownership.{idle}

-- A time point to the second.
abbrev pub whole : Time → Time
whole t = seconds (floor_seconds t)

abbrev pub whole_opt : Option Time → Option Time
whole_opt none = none
whole_opt (some t) = some (whole t)

-- The generation as the table keeps it: under its new id, with no image bytes, the numbers as
-- `int`, the times to the second, and the time of the insertion where it had none.
abbrev pub stored : ℕ → Time → ImageGeneration → ImageGeneration
stored id now g = record g {
  id = pos id;
  num_steps = to_int32 g.num_steps;
  height = to_int32 g.height;
  width = to_int32 g.width;
  seed = column_int g.seed;
  image_bytes = [];
  created_at = whole (if g.created_at == 0 then now else g.created_at);
  started_at = whole_opt g.started_at;
  completed_at = whole_opt g.completed_at;
  cancelled_at = whole_opt g.cancelled_at;
  lease_expires_at = whole_opt g.lease_expires_at;
}

column_whole : (o : Option Time) → column_time (optional_time_to_value o) ≡ whole_opt o
column_whole none = refl
column_whole (some t) = refl

select_last :
    (n : ℕ) (user : ℤ) (r : Row) (rows : List Row)
    → All (IsBelow n) rows
    → owned (pos n) user r ≡ true
    → select_where (owned (pos n) user) (rows ++ r ∷ []) ≡ r ∷ []
unfolding select_where
select_last n user r [] b o = rw o refl
select_last n user r (s ∷ rows) b o = ground (arith, select_last n user r rows b.1 o)

read_inserted :
    (id : ℕ) (now : Time) (g : ImageGeneration)
    → row_to_image_generation now
        (inserted_row id (if g.created_at == 0 then now else g.created_at) g)
      ≡ stored id now g
unfolding row_to_image_generation
read_inserted id now g =
    rw
      (
        column_whole g.started_at,
        column_whole g.completed_at,
        column_whole g.cancelled_at,
        column_whole g.lease_expires_at,
      )
      refl

owns : (n : ℕ) (user : ℤ) → (eqb_ℤ (pos n) (pos n) && eqb_ℤ user user) ≡ true
owns n user = rw (eqb_ℤ_refl (pos n), eqb_ℤ_refl user) refl

-- An insertion into a valid table of a generation whose members fit their columns, in a session in
-- which nothing fails and nobody else writes, returns the counter's id, and under that id the owner
-- finds what was inserted, as `stored` describes it.
pub insert-find :
    (t : Table) (now : Time) (g : ImageGeneration)
    → IsValid t
    → fits_columns g ≡ true
    → let (id, db) = insert g (idle t now) in
      (id ≡ ok (pos t.next_id))
      × ((find_by_id_and_user_id (pos t.next_id) g.user_id db).0
          ≡ ok (some (stored t.next_id now g)))
unfolding insert find_by_id_and_user_id execute
insert-find t now g v fits = (
  rw fits refl,
  rw
      (
        fits,
        select_last t.next_id g.user_id
            (inserted_row t.next_id (if g.created_at == 0 then now else g.created_at) g) t.rows
            v.below (owns t.next_id g.user_id),
      )
      (rw (read_inserted t.next_id now g) refl),
)
